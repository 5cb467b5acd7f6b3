-- ===== src/Gl/Host/Plain.antt =====
-- The requests that are calls and no more, qemu/hw/arm/garmin_gl.c, `render_exec`.
use garmin_gpsmap_emu.Prelude.{ℕ, u8, nonzero}
use garmin_gpsmap_emu.Prelude.{if◌then◌else◌, ◌==◌, leb}
use garmin_gpsmap_emu.Prelude.{List, [], ◌∷◌, ◌++◌, length}
use garmin_gpsmap_emu.Gl.Frame.{GlReq}
use garmin_gpsmap_emu.Gl.Host.Arrays.{render_draw_setup}
use garmin_gpsmap_emu.Gl.Op.{GlOp, op_blendfunc, op_depthfunc, op_cullface, op_frontface}
use garmin_gpsmap_emu.Gl.Op.{op_matrixmode, op_enable, op_disable, op_bindtexture, op_blendfuncsep}
use garmin_gpsmap_emu.Gl.Op.{op_pointsize, op_color4f, op_depthrange, op_scale, op_translate}
use garmin_gpsmap_emu.Gl.Op.{op_rotate, op_frustum, op_ortho, op_texparamf, op_texparami}
use garmin_gpsmap_emu.Gl.Op.{op_texenvf, op_texenvi, op_linewidth, op_cleardepth, op_depthmask}
use garmin_gpsmap_emu.Gl.Op.{op_colormask, op_shademodel, op_logicop, op_clear, op_clearcolor}
use garmin_gpsmap_emu.Gl.Op.{op_scissor, op_viewport, op_loadidentity, op_pushmatrix, op_popmatrix}
use garmin_gpsmap_emu.Gl.Op.{op_activetexture, op_alphafunc, op_clearstencil, op_stencilfunc}
use garmin_gpsmap_emu.Gl.Op.{op_stencilop, op_stencilmask, op_polygonoffset, op_samplecoverage}
use garmin_gpsmap_emu.Gl.Op.{op_hint, op_lightf, op_lightmodelf, op_materialf, op_fogf}
use garmin_gpsmap_emu.Gl.Op.{op_pointparamf, op_normal3f, op_multitexcoord4f, op_flush, op_finish}
use garmin_gpsmap_emu.Gl.Op.{op_lightfv, op_lightmodelfv, op_materialfv, op_fogfv, op_texenvfv}
use garmin_gpsmap_emu.Gl.Op.{op_texparamfv, op_pointparamfv, op_loadmatrix, op_multmatrix}
use garmin_gpsmap_emu.Gl.Op.{op_texsubimage2d, op_compressedteximage2d, op_compressedtexsubimage2d}
use garmin_gpsmap_emu.Gl.Op.{op_copyteximage2d, op_copytexsubimage2d, op_deletetextures}
use garmin_gpsmap_emu.Gl.Op.{op_bindrenderbuffer, op_renderbufferstorage}
use garmin_gpsmap_emu.Gl.Op.{op_framebufferrenderbuffer, op_framebuffertexture2d, op_generatemipmap}
use garmin_gpsmap_emu.Gl.Op.{op_deleterenderbuffers, op_clipplanef, op_drawarrays, op_drawelements}
use garmin_gpsmap_emu.Gl.Op.{op_teximage2d}
use garmin_gpsmap_emu.Gl.Host.{HostCall, host, int, float, floats, doubles, input, null}
use garmin_gpsmap_emu.Gl.Host.{gl_active_texture, gl_alpha_func, gl_bind_renderbuffer}
use garmin_gpsmap_emu.Gl.Host.{gl_bind_texture, gl_blend_func, gl_blend_func_separate, gl_clear}
use garmin_gpsmap_emu.Gl.Host.{gl_clear_color, gl_clear_depth, gl_clear_stencil}
use garmin_gpsmap_emu.Gl.Host.{gl_clip_plane, gl_color4f, gl_color_mask}
use garmin_gpsmap_emu.Gl.Host.{gl_copy_tex_image_2d, gl_copy_tex_sub_image_2d}
use garmin_gpsmap_emu.Gl.Host.{gl_cull_face, gl_delete_renderbuffers, gl_delete_textures}
use garmin_gpsmap_emu.Gl.Host.{gl_depth_func, gl_depth_mask, gl_depth_range, gl_disable}
use garmin_gpsmap_emu.Gl.Host.{gl_draw_arrays, gl_draw_elements, gl_enable}
use garmin_gpsmap_emu.Gl.Host.{gl_finish, gl_flush, gl_fogf, gl_fogfv}
use garmin_gpsmap_emu.Gl.Host.{
  gl_framebuffer_renderbuffer, gl_framebuffer_texture_2d, gl_front_face,
}
use garmin_gpsmap_emu.Gl.Host.{gl_frustum, gl_generate_mipmap, gl_hint, gl_light_modelf}
use garmin_gpsmap_emu.Gl.Host.{gl_light_modelfv, gl_lightf, gl_lightfv, gl_line_width}
use garmin_gpsmap_emu.Gl.Host.{gl_load_identity, gl_load_matrixf, gl_logic_op, gl_materialf}
use garmin_gpsmap_emu.Gl.Host.{gl_materialfv, gl_matrix_mode, gl_mult_matrixf, gl_multi_tex_coord4f}
use garmin_gpsmap_emu.Gl.Host.{gl_normal3f, gl_ortho, gl_pixel_storei}
use garmin_gpsmap_emu.Gl.Host.{gl_point_parameterf, gl_point_parameterfv, gl_point_size}
use garmin_gpsmap_emu.Gl.Host.{gl_polygon_offset, gl_pop_matrix, gl_push_matrix}
use garmin_gpsmap_emu.Gl.Host.{gl_renderbuffer_storage, gl_rotatef, gl_sample_coverage, gl_scalef}
use garmin_gpsmap_emu.Gl.Host.{gl_scissor, gl_shade_model, gl_stencil_func, gl_stencil_mask}
use garmin_gpsmap_emu.Gl.Host.{gl_stencil_op, gl_tex_envf, gl_tex_envfv}
use garmin_gpsmap_emu.Gl.Host.{gl_tex_envi, gl_tex_image_2d, gl_tex_parameterf, gl_tex_parameterfv}
use garmin_gpsmap_emu.Gl.Host.{gl_tex_parameteri, gl_tex_sub_image_2d, gl_translatef}
use garmin_gpsmap_emu.Gl.Host.{gl_viewport}

-- The format of a renderbuffer; `version` is that of the host.
unfoldable pub rb_format : ℕ → ℕ → ℕ
rb_format version fmt = if fmt == 0x8d62 then (if leb 41 version then 0x8d62 else 0x8050) else fmt

-- An operation that the renderer does not know has no call.
unfoldable pub plain : ℕ → GlOp → GlReq → List HostCall
plain version op_blendfunc r = host gl_blend_func (int (r.a 0) ∷ int (r.a 1) ∷ []) ∷ []
plain version op_depthfunc r = host gl_depth_func (int (r.a 0) ∷ []) ∷ []
plain version op_cullface r = host gl_cull_face (int (r.a 0) ∷ []) ∷ []
plain version op_frontface r = host gl_front_face (int (r.a 0) ∷ []) ∷ []
plain version op_matrixmode r = host gl_matrix_mode (int (r.a 0) ∷ []) ∷ []
plain version op_enable r = host gl_enable (int (r.a 0) ∷ []) ∷ []
plain version op_disable r = host gl_disable (int (r.a 0) ∷ []) ∷ []
plain version op_bindtexture r = host gl_bind_texture (int (r.a 0) ∷ int (r.a 1) ∷ []) ∷ []
plain version op_blendfuncsep r =
    host gl_blend_func_separate (int (r.a 0) ∷ int (r.a 1) ∷ int (r.a 2) ∷ int (r.a 3) ∷ []) ∷ []
plain version op_pointsize r = host gl_point_size (float (r.a 0) ∷ []) ∷ []
plain version op_color4f r =
    host gl_color4f (float (r.a 0) ∷ float (r.a 1) ∷ float (r.a 2) ∷ float (r.a 3) ∷ []) ∷ []
plain version op_depthrange r = host gl_depth_range (float (r.a 0) ∷ float (r.a 1) ∷ []) ∷ []
plain version op_scale r = host gl_scalef (float (r.a 0) ∷ float (r.a 1) ∷ float (r.a 2) ∷ []) ∷ []
plain version op_translate r =
    host gl_translatef (float (r.a 0) ∷ float (r.a 1) ∷ float (r.a 2) ∷ []) ∷ []
plain version op_rotate r =
    host gl_rotatef (float (r.a 0) ∷ float (r.a 1) ∷ float (r.a 2) ∷ float (r.a 3) ∷ []) ∷ []
plain version op_frustum r =
    host gl_frustum (
      float (r.a 0)
      ∷ float (r.a 1)
      ∷ float (r.a 2)
      ∷ float (r.a 3)
      ∷ float (r.a 4)
      ∷ float (r.a 5)
      ∷ [])
    ∷ []
plain version op_ortho r =
    host gl_ortho (
      float (r.a 0)
      ∷ float (r.a 1)
      ∷ float (r.a 2)
      ∷ float (r.a 3)
      ∷ float (r.a 4)
      ∷ float (r.a 5)
      ∷ [])
    ∷ []
plain version op_texparamf r =
    host gl_tex_parameterf (int (r.a 0) ∷ int (r.a 1) ∷ float (r.a 2) ∷ []) ∷ []
plain version op_texparami r =
    host gl_tex_parameteri (int (r.a 0) ∷ int (r.a 1) ∷ int (r.a 2) ∷ []) ∷ []
plain version op_texenvf r = host gl_tex_envf (int (r.a 0) ∷ int (r.a 1) ∷ float (r.a 2) ∷ []) ∷ []
plain version op_texenvi r = host gl_tex_envi (int (r.a 0) ∷ int (r.a 1) ∷ int (r.a 2) ∷ []) ∷ []
plain version op_linewidth r = host gl_line_width (float (r.a 0) ∷ []) ∷ []
plain version op_cleardepth r = host gl_clear_depth (float (r.a 0) ∷ []) ∷ []
plain version op_depthmask r = host gl_depth_mask (int (u8 (r.a 0)) ∷ []) ∷ []
plain version op_colormask r =
    host gl_color_mask
      (int (u8 (r.a 0)) ∷ int (u8 (r.a 1)) ∷ int (u8 (r.a 2)) ∷ int (u8 (r.a 3)) ∷ [])
    ∷ []
plain version op_shademodel r = host gl_shade_model (int (r.a 0) ∷ []) ∷ []
plain version op_logicop r = host gl_logic_op (int (r.a 0) ∷ []) ∷ []
plain version op_clear r = host gl_clear (int (r.a 0) ∷ []) ∷ []
plain version op_clearcolor r =
    host gl_clear_color (float (r.a 0) ∷ float (r.a 1) ∷ float (r.a 2) ∷ float (r.a 3) ∷ []) ∷ []
plain version op_scissor r =
    host gl_scissor (int (r.a 0) ∷ int (r.a 1) ∷ int (r.a 2) ∷ int (r.a 3) ∷ []) ∷ []
plain version op_viewport r =
    host gl_viewport (int (r.a 0) ∷ int (r.a 1) ∷ int (r.a 2) ∷ int (r.a 3) ∷ []) ∷ []
plain version op_loadidentity r = host gl_load_identity [] ∷ []
plain version op_pushmatrix r = host gl_push_matrix [] ∷ []
plain version op_popmatrix r = host gl_pop_matrix [] ∷ []
plain version op_activetexture r = host gl_active_texture (int (r.a 0) ∷ []) ∷ []
plain version op_alphafunc r = host gl_alpha_func (int (r.a 0) ∷ float (r.a 1) ∷ []) ∷ []
plain version op_clearstencil r = host gl_clear_stencil (int (r.a 0) ∷ []) ∷ []
plain version op_stencilfunc r =
    host gl_stencil_func (int (r.a 0) ∷ int (r.a 1) ∷ int (r.a 2) ∷ []) ∷ []
plain version op_stencilop r =
    host gl_stencil_op (int (r.a 0) ∷ int (r.a 1) ∷ int (r.a 2) ∷ []) ∷ []
plain version op_stencilmask r = host gl_stencil_mask (int (r.a 0) ∷ []) ∷ []
plain version op_polygonoffset r = host gl_polygon_offset (float (r.a 0) ∷ float (r.a 1) ∷ []) ∷ []
plain version op_samplecoverage r =
    host gl_sample_coverage (float (r.a 0) ∷ int (u8 (r.a 1)) ∷ []) ∷ []
plain version op_hint r = host gl_hint (int (r.a 0) ∷ int (r.a 1) ∷ []) ∷ []
plain version op_lightf r = host gl_lightf (int (r.a 0) ∷ int (r.a 1) ∷ float (r.a 2) ∷ []) ∷ []
plain version op_lightmodelf r = host gl_light_modelf (int (r.a 0) ∷ float (r.a 1) ∷ []) ∷ []
plain version op_materialf r =
    host gl_materialf (int (r.a 0) ∷ int (r.a 1) ∷ float (r.a 2) ∷ []) ∷ []
plain version op_fogf r = host gl_fogf (int (r.a 0) ∷ float (r.a 1) ∷ []) ∷ []
plain version op_pointparamf r = host gl_point_parameterf (int (r.a 0) ∷ float (r.a 1) ∷ []) ∷ []
plain version op_normal3f r =
    host gl_normal3f (float (r.a 0) ∷ float (r.a 1) ∷ float (r.a 2) ∷ []) ∷ []
plain version op_multitexcoord4f r =
    host gl_multi_tex_coord4f
      (int (r.a 0) ∷ float (r.a 1) ∷ float (r.a 2) ∷ float (r.a 3) ∷ float (r.a 4) ∷ [])
    ∷ []
plain version op_flush r = host gl_flush [] ∷ []
plain version op_finish r = host gl_finish [] ∷ []
plain version op_lightfv r = host gl_lightfv (int (r.a 0) ∷ int (r.a 1) ∷ floats 0 ∷ []) ∷ []
plain version op_lightmodelfv r = host gl_light_modelfv (int (r.a 0) ∷ floats 0 ∷ []) ∷ []
plain version op_materialfv r = host gl_materialfv (int (r.a 0) ∷ int (r.a 1) ∷ floats 0 ∷ []) ∷ []
plain version op_fogfv r = host gl_fogfv (int (r.a 0) ∷ floats 0 ∷ []) ∷ []
plain version op_texenvfv r = host gl_tex_envfv (int (r.a 0) ∷ int (r.a 1) ∷ floats 0 ∷ []) ∷ []
plain version op_texparamfv r =
    host gl_tex_parameterfv (int (r.a 0) ∷ int (r.a 1) ∷ floats 0 ∷ []) ∷ []
plain version op_pointparamfv r = host gl_point_parameterfv (int (r.a 0) ∷ floats 0 ∷ []) ∷ []
plain version op_loadmatrix r = host gl_load_matrixf (floats 0 ∷ []) ∷ []
plain version op_multmatrix r = host gl_mult_matrixf (floats 0 ∷ []) ∷ []
plain version op_texsubimage2d r =
    host gl_pixel_storei (int 0x0cf5 ∷ int (r.a 9) ∷ [])
    ∷ host gl_tex_sub_image_2d (
        int (r.a 0)
        ∷ int (r.a 1)
        ∷ int (r.a 2)
        ∷ int (r.a 3)
        ∷ int (r.a 4)
        ∷ int (r.a 5)
        ∷ int (r.a 6)
        ∷ int (r.a 7)
        ∷ input 0
        ∷ [])
    ∷ []
plain version op_compressedteximage2d r =
    host gl_pixel_storei (int 0x0cf5 ∷ int 1 ∷ [])
    ∷ host gl_tex_image_2d (
        int (r.a 0)
        ∷ int (r.a 1)
        ∷ int (r.a 2)
        ∷ int (r.a 3)
        ∷ int (r.a 4)
        ∷ int 0
        ∷ int (r.a 2)
        ∷ int 0x1401
        ∷ input 0
        ∷ [])
    ∷ []
plain version op_compressedtexsubimage2d r =
    host gl_pixel_storei (int 0x0cf5 ∷ int 1 ∷ [])
    ∷ host gl_tex_sub_image_2d (
        int (r.a 0)
        ∷ int (r.a 1)
        ∷ int (r.a 2)
        ∷ int (r.a 3)
        ∷ int (r.a 4)
        ∷ int (r.a 5)
        ∷ int (r.a 6)
        ∷ int 0x1401
        ∷ input 0
        ∷ [])
    ∷ []
plain version op_copyteximage2d r =
    host gl_copy_tex_image_2d (
      int (r.a 0)
      ∷ int (r.a 1)
      ∷ int (r.a 2)
      ∷ int (r.a 3)
      ∷ int (r.a 4)
      ∷ int (r.a 5)
      ∷ int (r.a 6)
      ∷ int (r.a 7)
      ∷ [])
    ∷ []
plain version op_copytexsubimage2d r =
    host gl_copy_tex_sub_image_2d (
      int (r.a 0)
      ∷ int (r.a 1)
      ∷ int (r.a 2)
      ∷ int (r.a 3)
      ∷ int (r.a 4)
      ∷ int (r.a 5)
      ∷ int (r.a 6)
      ∷ int (r.a 7)
      ∷ [])
    ∷ []
plain version op_deletetextures r = host gl_delete_textures (int (r.a 0) ∷ input 0 ∷ []) ∷ []
plain version op_bindrenderbuffer r = host gl_bind_renderbuffer (int 0x8d41 ∷ int (r.a 1) ∷ []) ∷ []
plain version op_renderbufferstorage r =
    host gl_renderbuffer_storage
      (int 0x8d41 ∷ int (rb_format version (r.a 1)) ∷ int (r.a 2) ∷ int (r.a 3) ∷ [])
    ∷ []
plain version op_framebufferrenderbuffer r =
    host gl_framebuffer_renderbuffer (int 0x8d40 ∷ int (r.a 1) ∷ int 0x8d41 ∷ int (r.a 3) ∷ []) ∷ []
plain version op_framebuffertexture2d r =
    host gl_framebuffer_texture_2d
      (int 0x8d40 ∷ int (r.a 1) ∷ int (r.a 2) ∷ int (r.a 3) ∷ int (r.a 4) ∷ [])
    ∷ []
plain version op_generatemipmap r = host gl_generate_mipmap (int (r.a 0) ∷ []) ∷ []
plain version op_deleterenderbuffers r =
    host gl_delete_renderbuffers (int (r.a 0) ∷ input 0 ∷ []) ∷ []
plain version op_clipplanef r = host gl_clip_plane (int (r.a 0) ∷ doubles 0 ∷ []) ∷ []
plain version op_drawarrays r =
    render_draw_setup r.draw.arr
    ++ (host gl_draw_arrays (int (r.a 0) ∷ int 0 ∷ int r.draw.nverts ∷ []) ∷ [])
plain version op_drawelements r =
    render_draw_setup r.draw.arr
    ++ (host gl_draw_elements
          (int (r.a 0) ∷ int r.draw.idx_count ∷ int r.draw.idx_type ∷ input r.draw.idx_off ∷ [])
        ∷ [])
plain version op_teximage2d r =
    host gl_pixel_storei (int 0x0cf5 ∷ int (r.a 9) ∷ [])
    ∷ host gl_tex_image_2d (
        int (r.a 0)
        ∷ int (r.a 1)
        ∷ int (r.a 2)
        ∷ int (r.a 3)
        ∷ int (r.a 4)
        ∷ int (r.a 5)
        ∷ int (r.a 6)
        ∷ int (r.a 7)
        ∷ (if nonzero (length r.input) then input 0 else null)
        ∷ [])
    ∷ []
plain version other r = []
