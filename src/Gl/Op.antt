-- ===== src/Gl/Op.antt =====
-- The operations of qemu/hw/arm/garmin_gl.c, `enum GlOp`.
use garmin_gpsmap_emu.Prelude.{Bool, true, false}

pub data GlOp : Type 0 where
  op_unknown : GlOp
  op_blendfunc : GlOp
  op_depthfunc : GlOp
  op_cullface : GlOp
  op_frontface : GlOp
  op_matrixmode : GlOp
  op_enable : GlOp
  op_disable : GlOp
  op_bindtexture : GlOp
  op_blendfuncsep : GlOp
  op_pointsize : GlOp
  op_color4f : GlOp
  op_depthrange : GlOp
  op_scale : GlOp
  op_translate : GlOp
  op_rotate : GlOp
  op_frustum : GlOp
  op_ortho : GlOp
  op_texparamf : GlOp
  op_texparami : GlOp
  op_texenvf : GlOp
  op_texenvi : GlOp
  op_linewidth : GlOp
  op_cleardepth : GlOp
  op_depthmask : GlOp
  op_colormask : GlOp
  op_shademodel : GlOp
  op_logicop : GlOp
  op_clear : GlOp
  op_clearcolor : GlOp
  op_scissor : GlOp
  op_viewport : GlOp
  op_loadidentity : GlOp
  op_pushmatrix : GlOp
  op_popmatrix : GlOp
  op_activetexture : GlOp
  op_alphafunc : GlOp
  op_clearstencil : GlOp
  op_stencilfunc : GlOp
  op_stencilop : GlOp
  op_stencilmask : GlOp
  op_polygonoffset : GlOp
  op_samplecoverage : GlOp
  op_hint : GlOp
  op_lightf : GlOp
  op_lightmodelf : GlOp
  op_materialf : GlOp
  op_fogf : GlOp
  op_pointparamf : GlOp
  op_normal3f : GlOp
  op_multitexcoord4f : GlOp
  op_flush : GlOp
  op_finish : GlOp
  op_geterror : GlOp
  op_cullface_end : GlOp
  op_lightfv : GlOp
  op_lightmodelfv : GlOp
  op_materialfv : GlOp
  op_fogfv : GlOp
  op_texenvfv : GlOp
  op_texparamfv : GlOp
  op_pointparamfv : GlOp
  op_clipplanef : GlOp
  op_loadmatrix : GlOp
  op_multmatrix : GlOp
  op_vertexptr : GlOp
  op_normalptr : GlOp
  op_colorptr : GlOp
  op_texcoordptr : GlOp
  op_pointsizeptr : GlOp
  op_enableclient : GlOp
  op_disableclient : GlOp
  op_clientactivetex : GlOp
  op_bindbuffer : GlOp
  op_genbuffers : GlOp
  op_deletebuffers : GlOp
  op_bufferdata : GlOp
  op_buffersubdata : GlOp
  op_pixelstore : GlOp
  op_getstring : GlOp
  op_drawarrays : GlOp
  op_drawelements : GlOp
  op_teximage2d : GlOp
  op_texsubimage2d : GlOp
  op_compressedteximage2d : GlOp
  op_compressedtexsubimage2d : GlOp
  op_readpixels : GlOp
  op_gentextures : GlOp
  op_deletetextures : GlOp
  op_istexture : GlOp
  op_isenabled : GlOp
  op_getfloatv : GlOp
  op_getintegerv : GlOp
  op_getbooleanv : GlOp
  op_getfixedv : GlOp
  op_getlightfv : GlOp
  op_getmaterialfv : GlOp
  op_gettexenvfv : GlOp
  op_gettexparamfv : GlOp
  op_getclipplanef : GlOp
  op_getbufferparam : GlOp
  op_getpointerv : GlOp
  op_copyteximage2d : GlOp
  op_copytexsubimage2d : GlOp
  op_drawtex : GlOp
  op_swapbuffers : GlOp
  op_nop : GlOp
  op_egl_true : GlOp
  op_bindframebuffer : GlOp
  op_bindrenderbuffer : GlOp
  op_genframebuffers : GlOp
  op_genrenderbuffers : GlOp
  op_deleteframebuffers : GlOp
  op_deleterenderbuffers : GlOp
  op_renderbufferstorage : GlOp
  op_framebufferrenderbuffer : GlOp
  op_framebuffertexture2d : GlOp
  op_checkframebuffer : GlOp
  op_generatemipmap : GlOp
  op_eglimage_tex2d : GlOp
  op_egl_surface : GlOp
  op_egl_cursurface : GlOp
  op_egl_querysurface : GlOp
  op_egl_no_image : GlOp

-- The operations whose answer the caller waits for.
unfoldable pub op_is_query : GlOp → Bool
op_is_query op_geterror = true
op_is_query op_istexture = true
op_is_query op_isenabled = true
op_is_query op_readpixels = true
op_is_query op_gentextures = true
op_is_query op_getfloatv = true
op_is_query op_getintegerv = true
op_is_query op_getbooleanv = true
op_is_query op_getfixedv = true
op_is_query op_getlightfv = true
op_is_query op_getmaterialfv = true
op_is_query op_gettexenvfv = true
op_is_query op_gettexparamfv = true
op_is_query op_getclipplanef = true
op_is_query op_finish = true
op_is_query op_flush = true
op_is_query op_genframebuffers = true
op_is_query op_genrenderbuffers = true
op_is_query op_checkframebuffer = true
op_is_query other = false
