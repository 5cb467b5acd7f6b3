-- ===== src/Gl/Host/Calm.antt =====
-- Requests that leave the binding of framebuffers alone, qemu/hw/arm/garmin_gl.c.
use garmin_gpsmap_emu.Prelude.{
  ℕ, zero, suc, ◌≡◌, refl, Bool, true, false, not, ◌&&◌, List, [], ◌∷◌, ◌++◌,
}
use garmin_gpsmap_emu.Prelude.{if◌then◌else◌, get_or}
use garmin_gpsmap_emu.Gl.Frame.{GlReq, ArrayBlob}
use garmin_gpsmap_emu.Gl.Host.{HostFn, HostCall, host, gl_bind_framebuffer, gl_delete_framebuffers}
use garmin_gpsmap_emu.Prelude.{leb, ◌+◌, ◌-◌}
use garmin_gpsmap_emu.Gl.Host.{int, gl_client_active_texture}
use garmin_gpsmap_emu.Gl.Host.Arrays.{
  array_pointer, setup_array, setup_arrays, render_draw_setup, no_blob,
}
use garmin_gpsmap_emu.Gl.Host.Plain.{plain}
use garmin_gpsmap_emu.Gl.Op.{GlOp, op_blendfunc, op_depthfunc, op_cullface, op_frontface}
use garmin_gpsmap_emu.Gl.Op.{op_matrixmode, op_enable, op_disable, op_bindtexture, op_blendfuncsep}
use garmin_gpsmap_emu.Gl.Op.{op_pointsize, op_color4f, op_depthrange, op_scale, op_translate}
use garmin_gpsmap_emu.Gl.Op.{op_rotate, op_frustum, op_ortho, op_texparamf, op_texparami}
use garmin_gpsmap_emu.Gl.Op.{op_texenvf, op_texenvi, op_linewidth, op_cleardepth, op_depthmask}
use garmin_gpsmap_emu.Gl.Op.{op_colormask, op_shademodel, op_logicop, op_clear, op_clearcolor}
use garmin_gpsmap_emu.Gl.Op.{op_scissor, op_viewport, op_loadidentity, op_pushmatrix, op_popmatrix}
use garmin_gpsmap_emu.Gl.Op.{op_activetexture, op_alphafunc, op_clearstencil, op_stencilfunc}
use garmin_gpsmap_emu.Gl.Op.{op_stencilop, op_stencilmask, op_polygonoffset, op_samplecoverage}
use garmin_gpsmap_emu.Gl.Op.{op_hint, op_lightf, op_lightmodelf, op_materialf, op_fogf}
use garmin_gpsmap_emu.Gl.Op.{op_pointparamf, op_normal3f, op_multitexcoord4f, op_flush, op_finish}
use garmin_gpsmap_emu.Gl.Op.{op_lightfv, op_lightmodelfv, op_materialfv, op_fogfv, op_texenvfv}
use garmin_gpsmap_emu.Gl.Op.{op_texparamfv, op_pointparamfv, op_loadmatrix, op_multmatrix}
use garmin_gpsmap_emu.Gl.Op.{op_texsubimage2d, op_compressedteximage2d, op_compressedtexsubimage2d}
use garmin_gpsmap_emu.Gl.Op.{op_copyteximage2d, op_copytexsubimage2d, op_deletetextures}
use garmin_gpsmap_emu.Gl.Op.{op_bindrenderbuffer, op_renderbufferstorage}
use garmin_gpsmap_emu.Gl.Op.{op_framebufferrenderbuffer, op_framebuffertexture2d, op_generatemipmap}
use garmin_gpsmap_emu.Gl.Op.{op_deleterenderbuffers, op_clipplanef, op_drawarrays, op_drawelements}
use garmin_gpsmap_emu.Gl.Op.{op_teximage2d}

-- The functions of the host that can change which framebuffer is bound.
abbrev pub rebinds : HostFn → Bool
rebinds gl_bind_framebuffer = true
rebinds gl_delete_framebuffers = true
rebinds other = false

abbrev pub calm : List HostCall → Bool
calm [] = true
calm (host fn args ∷ rest) = not (rebinds fn) && calm rest

and_then : (a b c : Bool) → a && b ≡ true → (b ≡ true → c ≡ true) → a && c ≡ true
and_then true b c p f = f p
and_then false b c p f = p

calm-append : (xs ys : List HostCall) → calm xs ≡ true → calm ys ≡ true → calm (xs ++ ys) ≡ true
calm-append [] ys p q = q
calm-append (host fn args ∷ xs) ys p q =
    and_then (not (rebinds fn)) (calm xs) (calm (xs ++ ys)) p (λ r. calm-append xs ys r q)

calm-if :
    (b : Bool) (xs ys : List HostCall)
    → calm xs ≡ true
    → calm ys ≡ true
    → calm (if b then xs else ys) ≡ true
calm-if true xs ys p q = p
calm-if false xs ys p q = q

array_pointer-calm : (i : ℕ) (b : ArrayBlob) → calm (array_pointer i b ∷ []) ≡ true
unfolding array_pointer
array_pointer-calm zero b = refl
array_pointer-calm (suc zero) b = refl
array_pointer-calm (suc (suc zero)) b = refl
array_pointer-calm (suc (suc (suc i))) b = refl

setup_array-calm : (i : ℕ) (b : ArrayBlob) → calm (setup_array i b) ≡ true
unfolding setup_array
setup_array-calm i b =
    let pointed = array_pointer-calm i b in
    calm-append
      (if leb 3 i then host gl_client_active_texture (int (0x84c0 + (i - 3)) ∷ []) ∷ [] else []) _
      (calm-if (leb 3 i) _ [] refl refl) (calm-if b.enabled _ _ pointed refl)

setup_arrays-calm : (n i : ℕ) (blobs : List ArrayBlob) → calm (setup_arrays n i blobs) ≡ true
unfolding setup_arrays
setup_arrays-calm zero i blobs = refl
setup_arrays-calm (suc n) i blobs =
    let blob = get_or blobs i no_blob in
    calm-append (setup_array i blob) (setup_arrays n (suc i) blobs) (setup_array-calm i blob)
      (setup_arrays-calm n (suc i) blobs)

render_draw_setup-calm : (blobs : List ArrayBlob) → calm (render_draw_setup blobs) ≡ true
unfolding render_draw_setup
render_draw_setup-calm blobs =
    calm-append (setup_arrays 7 0 blobs) _ (setup_arrays-calm 7 0 blobs) refl

pub plain-calm : (version : ℕ) (op : GlOp) (r : GlReq) → calm (plain version op r) ≡ true
unfolding plain
plain-calm version op_blendfunc r = refl
plain-calm version op_depthfunc r = refl
plain-calm version op_cullface r = refl
plain-calm version op_frontface r = refl
plain-calm version op_matrixmode r = refl
plain-calm version op_enable r = refl
plain-calm version op_disable r = refl
plain-calm version op_bindtexture r = refl
plain-calm version op_blendfuncsep r = refl
plain-calm version op_pointsize r = refl
plain-calm version op_color4f r = refl
plain-calm version op_depthrange r = refl
plain-calm version op_scale r = refl
plain-calm version op_translate r = refl
plain-calm version op_rotate r = refl
plain-calm version op_frustum r = refl
plain-calm version op_ortho r = refl
plain-calm version op_texparamf r = refl
plain-calm version op_texparami r = refl
plain-calm version op_texenvf r = refl
plain-calm version op_texenvi r = refl
plain-calm version op_linewidth r = refl
plain-calm version op_cleardepth r = refl
plain-calm version op_depthmask r = refl
plain-calm version op_colormask r = refl
plain-calm version op_shademodel r = refl
plain-calm version op_logicop r = refl
plain-calm version op_clear r = refl
plain-calm version op_clearcolor r = refl
plain-calm version op_scissor r = refl
plain-calm version op_viewport r = refl
plain-calm version op_loadidentity r = refl
plain-calm version op_pushmatrix r = refl
plain-calm version op_popmatrix r = refl
plain-calm version op_activetexture r = refl
plain-calm version op_alphafunc r = refl
plain-calm version op_clearstencil r = refl
plain-calm version op_stencilfunc r = refl
plain-calm version op_stencilop r = refl
plain-calm version op_stencilmask r = refl
plain-calm version op_polygonoffset r = refl
plain-calm version op_samplecoverage r = refl
plain-calm version op_hint r = refl
plain-calm version op_lightf r = refl
plain-calm version op_lightmodelf r = refl
plain-calm version op_materialf r = refl
plain-calm version op_fogf r = refl
plain-calm version op_pointparamf r = refl
plain-calm version op_normal3f r = refl
plain-calm version op_multitexcoord4f r = refl
plain-calm version op_flush r = refl
plain-calm version op_finish r = refl
plain-calm version op_lightfv r = refl
plain-calm version op_lightmodelfv r = refl
plain-calm version op_materialfv r = refl
plain-calm version op_fogfv r = refl
plain-calm version op_texenvfv r = refl
plain-calm version op_texparamfv r = refl
plain-calm version op_pointparamfv r = refl
plain-calm version op_loadmatrix r = refl
plain-calm version op_multmatrix r = refl
plain-calm version op_texsubimage2d r = refl
plain-calm version op_compressedteximage2d r = refl
plain-calm version op_compressedtexsubimage2d r = refl
plain-calm version op_copyteximage2d r = refl
plain-calm version op_copytexsubimage2d r = refl
plain-calm version op_deletetextures r = refl
plain-calm version op_bindrenderbuffer r = refl
plain-calm version op_renderbufferstorage r = refl
plain-calm version op_framebufferrenderbuffer r = refl
plain-calm version op_framebuffertexture2d r = refl
plain-calm version op_generatemipmap r = refl
plain-calm version op_deleterenderbuffers r = refl
plain-calm version op_clipplanef r = refl
plain-calm version op_drawarrays r =
    calm-append (render_draw_setup r.draw.arr) _ (render_draw_setup-calm r.draw.arr) refl
plain-calm version op_drawelements r =
    calm-append (render_draw_setup r.draw.arr) _ (render_draw_setup-calm r.draw.arr) refl
plain-calm version op_teximage2d r = refl
plain-calm version other r = refl
