-- ===== src/Gl/Host.antt =====
-- The calls of the host's OpenGL in qemu/hw/arm/garmin_gl.c: what the render thread asks the host for.
-- The host is a function of its state and the call; floats are their words, the renderer's float
-- arithmetic a parameter.
pub mod Arrays
pub mod Plain
pub mod Exec
pub mod Calm
pub mod Bound
pub mod Start
pub mod Window
mod Tests
use garmin_gpsmap_emu.Prelude.{ℕ, Bool, List, [], ◌∷◌}

-- The host's functions by their names.
pub data HostFn : Type 0 where
  gl_active_texture : HostFn
  gl_alpha_func : HostFn
  gl_bind_buffer : HostFn
  gl_bind_framebuffer : HostFn
  gl_bind_renderbuffer : HostFn
  gl_bind_texture : HostFn
  gl_blend_func : HostFn
  gl_blend_func_separate : HostFn
  gl_check_framebuffer_status : HostFn
  gl_clear : HostFn
  gl_clear_color : HostFn
  gl_clear_depth : HostFn
  gl_clear_stencil : HostFn
  gl_client_active_texture : HostFn
  gl_clip_plane : HostFn
  gl_color4f : HostFn
  gl_color_mask : HostFn
  gl_color_pointer : HostFn
  gl_copy_tex_image_2d : HostFn
  gl_copy_tex_sub_image_2d : HostFn
  gl_cull_face : HostFn
  gl_delete_framebuffers : HostFn
  gl_delete_renderbuffers : HostFn
  gl_delete_textures : HostFn
  gl_depth_func : HostFn
  gl_depth_mask : HostFn
  gl_depth_range : HostFn
  gl_disable : HostFn
  gl_disable_client_state : HostFn
  gl_draw_arrays : HostFn
  gl_draw_elements : HostFn
  gl_enable : HostFn
  gl_enable_client_state : HostFn
  gl_finish : HostFn
  gl_flush : HostFn
  gl_fogf : HostFn
  gl_fogfv : HostFn
  gl_framebuffer_renderbuffer : HostFn
  gl_framebuffer_texture_2d : HostFn
  gl_front_face : HostFn
  gl_frustum : HostFn
  gl_gen_framebuffers : HostFn
  gl_gen_renderbuffers : HostFn
  gl_gen_textures : HostFn
  gl_generate_mipmap : HostFn
  gl_get_clip_plane : HostFn
  gl_get_error : HostFn
  gl_get_floatv : HostFn
  gl_get_integerv : HostFn
  gl_get_lightfv : HostFn
  gl_get_materialfv : HostFn
  gl_get_tex_envfv : HostFn
  gl_get_tex_level_parameteriv : HostFn
  gl_get_tex_parameterfv : HostFn
  gl_hint : HostFn
  gl_is_enabled : HostFn
  gl_is_texture : HostFn
  gl_light_modelf : HostFn
  gl_light_modelfv : HostFn
  gl_lightf : HostFn
  gl_lightfv : HostFn
  gl_line_width : HostFn
  gl_load_identity : HostFn
  gl_load_matrixf : HostFn
  gl_logic_op : HostFn
  gl_materialf : HostFn
  gl_materialfv : HostFn
  gl_matrix_mode : HostFn
  gl_mult_matrixf : HostFn
  gl_multi_tex_coord4f : HostFn
  gl_normal3f : HostFn
  gl_normal_pointer : HostFn
  gl_ortho : HostFn
  gl_pixel_storei : HostFn
  gl_point_parameterf : HostFn
  gl_point_parameterfv : HostFn
  gl_point_size : HostFn
  gl_polygon_offset : HostFn
  gl_pop_matrix : HostFn
  gl_push_matrix : HostFn
  gl_read_pixels : HostFn
  gl_renderbuffer_storage : HostFn
  gl_rotatef : HostFn
  gl_sample_coverage : HostFn
  gl_scalef : HostFn
  gl_scissor : HostFn
  gl_shade_model : HostFn
  gl_stencil_func : HostFn
  gl_stencil_mask : HostFn
  gl_stencil_op : HostFn
  gl_tex_coord_pointer : HostFn
  gl_tex_envf : HostFn
  gl_tex_envfv : HostFn
  gl_tex_envi : HostFn
  gl_tex_image_2d : HostFn
  gl_tex_parameterf : HostFn
  gl_tex_parameterfv : HostFn
  gl_tex_parameteri : HostFn
  gl_tex_sub_image_2d : HostFn
  gl_translatef : HostFn
  gl_vertex_pointer : HostFn
  gl_viewport : HostFn

-- An argument: a number, a float, floats or doubles or bytes from a place of the request's buffer on,
-- values of the renderer's own, no pointer, or the request's `out`.
pub data Arg : Type 0 where
  int : ℕ → Arg
  float : ℕ → Arg
  floats : ℕ → Arg
  doubles : ℕ → Arg
  input : ℕ → Arg
  values : List ℕ → Arg
  null : Arg
  output : Arg

pub data HostCall : Type 0 where
  host : HostFn → List Arg → HostCall

-- Float arithmetic on words; `of_int` converts a number of 32 bits with a sign.
pub record FloatOps : Type 0 where
  pub add : ℕ → ℕ → ℕ
  pub div : ℕ → ℕ → ℕ
  pub neg : ℕ → ℕ
  pub is_zero : ℕ → Bool
  pub of_int : ℕ → ℕ

module _ {H : Type 0} (gl : H → HostCall → H × List ℕ) where
  -- Calls whose answers nobody reads.
  unfoldable pub run : H → List HostCall → H
  run h [] = h
  run h (c ∷ rest) = run ((gl h c).0) rest
