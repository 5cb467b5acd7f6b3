-- ===== src/Gl/Table/Opdefs.antt =====
-- The functions of OpenGL ES and EGL that the trap knows, qemu/hw/arm/garmin_gl.c, `opdefs`.
use Prim.Native.String.{String}
use garmin_gpsmap_emu.Prelude.{Bool, true, false, List, [], ◌∷◌}
use garmin_gpsmap_emu.Gl.Op.{GlOp, op_activetexture, op_alphafunc, op_bindbuffer}
use garmin_gpsmap_emu.Gl.Op.{op_bindframebuffer, op_bindrenderbuffer, op_bindtexture, op_blendfunc}
use garmin_gpsmap_emu.Gl.Op.{op_blendfuncsep, op_bufferdata, op_buffersubdata, op_checkframebuffer}
use garmin_gpsmap_emu.Gl.Op.{op_clear, op_clearcolor, op_cleardepth, op_clearstencil}
use garmin_gpsmap_emu.Gl.Op.{op_clientactivetex, op_clipplanef, op_color4f, op_colormask}
use garmin_gpsmap_emu.Gl.Op.{op_colorptr, op_compressedteximage2d, op_compressedtexsubimage2d}
use garmin_gpsmap_emu.Gl.Op.{op_copyteximage2d, op_copytexsubimage2d, op_cullface, op_deletebuffers}
use garmin_gpsmap_emu.Gl.Op.{op_deleteframebuffers, op_deleterenderbuffers, op_deletetextures}
use garmin_gpsmap_emu.Gl.Op.{op_depthfunc, op_depthmask, op_depthrange, op_disable}
use garmin_gpsmap_emu.Gl.Op.{op_disableclient, op_drawarrays, op_drawelements, op_drawtex}
use garmin_gpsmap_emu.Gl.Op.{op_egl_cursurface, op_egl_no_image, op_egl_querysurface}
use garmin_gpsmap_emu.Gl.Op.{op_egl_surface, op_egl_true, op_eglimage_tex2d, op_enable}
use garmin_gpsmap_emu.Gl.Op.{op_enableclient, op_finish, op_flush, op_fogf, op_fogfv}
use garmin_gpsmap_emu.Gl.Op.{op_framebufferrenderbuffer, op_framebuffertexture2d, op_frontface}
use garmin_gpsmap_emu.Gl.Op.{op_frustum, op_genbuffers, op_generatemipmap, op_genframebuffers}
use garmin_gpsmap_emu.Gl.Op.{op_genrenderbuffers, op_gentextures, op_getbooleanv, op_getbufferparam}
use garmin_gpsmap_emu.Gl.Op.{op_getclipplanef, op_geterror, op_getfixedv, op_getfloatv}
use garmin_gpsmap_emu.Gl.Op.{op_getintegerv, op_getlightfv, op_getmaterialfv, op_getpointerv}
use garmin_gpsmap_emu.Gl.Op.{op_getstring, op_gettexenvfv, op_gettexparamfv, op_hint, op_isenabled}
use garmin_gpsmap_emu.Gl.Op.{op_istexture, op_lightf, op_lightfv, op_lightmodelf, op_lightmodelfv}
use garmin_gpsmap_emu.Gl.Op.{op_linewidth, op_loadidentity, op_loadmatrix, op_logicop, op_materialf}
use garmin_gpsmap_emu.Gl.Op.{op_materialfv, op_matrixmode, op_multitexcoord4f, op_multmatrix}
use garmin_gpsmap_emu.Gl.Op.{op_normal3f, op_normalptr, op_ortho, op_pixelstore, op_pointparamf}
use garmin_gpsmap_emu.Gl.Op.{op_pointparamfv, op_pointsize, op_pointsizeptr, op_polygonoffset}
use garmin_gpsmap_emu.Gl.Op.{op_popmatrix, op_pushmatrix, op_readpixels, op_renderbufferstorage}
use garmin_gpsmap_emu.Gl.Op.{op_rotate, op_samplecoverage, op_scale, op_scissor, op_shademodel}
use garmin_gpsmap_emu.Gl.Op.{op_stencilfunc, op_stencilmask, op_stencilop, op_swapbuffers}
use garmin_gpsmap_emu.Gl.Op.{op_texcoordptr, op_texenvf, op_texenvfv, op_texenvi, op_teximage2d}
use garmin_gpsmap_emu.Gl.Op.{op_texparamf, op_texparamfv, op_texparami, op_texsubimage2d}
use garmin_gpsmap_emu.Gl.Op.{op_translate, op_vertexptr, op_viewport}

-- The letters of `sig` say what the arguments are.
pub record GlOpDef : Type 0 where
  pub name : String
  pub op : GlOp
  pub sig : String
  pub opt_in : Bool

abbrev entry : String → GlOp → String → GlOpDef
entry name op sig = record { name = name; op = op; sig = sig; opt_in = false }

abbrev opt_in_entry : String → GlOp → String → GlOpDef
opt_in_entry name op sig = record { name = name; op = op; sig = sig; opt_in = true }

abbrev pub opdefs : List GlOpDef
opdefs =
    entry "glBlendFunc" op_blendfunc "ii"
    ∷ entry "glDepthFunc" op_depthfunc "i"
    ∷ entry "glCullFace" op_cullface "i"
    ∷ entry "glFrontFace" op_frontface "i"
    ∷ entry "glMatrixMode" op_matrixmode "i"
    ∷ entry "glEnable" op_enable "i"
    ∷ entry "glDisable" op_disable "i"
    ∷ entry "glBindTexture" op_bindtexture "ii"
    ∷ entry "glBlendFuncSeparate" op_blendfuncsep "iiii"
    ∷ entry "glBlendFuncSeparateOES" op_blendfuncsep "iiii"
    ∷ entry "glPointSize" op_pointsize "f"
    ∷ entry "glPointSizex" op_pointsize "x"
    ∷ entry "glColor4f" op_color4f "ffff"
    ∷ entry "glColor4x" op_color4f "xxxx"
    ∷ entry "glColor4ub" op_color4f "bbbb"
    ∷ entry "glDepthRangef" op_depthrange "ff"
    ∷ entry "glDepthRangex" op_depthrange "xx"
    ∷ entry "glScalef" op_scale "fff"
    ∷ entry "glScalex" op_scale "xxx"
    ∷ entry "glTranslatef" op_translate "fff"
    ∷ entry "glTranslatex" op_translate "xxx"
    ∷ entry "glRotatef" op_rotate "ffff"
    ∷ entry "glRotatex" op_rotate "xxxx"
    ∷ entry "glFrustumf" op_frustum "ffffff"
    ∷ entry "glFrustumx" op_frustum "xxxxxx"
    ∷ entry "glOrthof" op_ortho "ffffff"
    ∷ entry "glOrthox" op_ortho "xxxxxx"
    ∷ entry "glTexParameterf" op_texparamf "iif"
    ∷ entry "glTexParameterx" op_texparamf "iix"
    ∷ entry "glTexParameteri" op_texparami "iii"
    ∷ entry "glTexEnvf" op_texenvf "iif"
    ∷ entry "glTexEnvx" op_texenvf "iix"
    ∷ entry "glTexEnvi" op_texenvi "iii"
    ∷ entry "glLineWidth" op_linewidth "f"
    ∷ entry "glLineWidthx" op_linewidth "x"
    ∷ entry "glClearDepthf" op_cleardepth "f"
    ∷ entry "glClearDepthx" op_cleardepth "x"
    ∷ entry "glClearDepth" op_cleardepth "f"
    ∷ entry "glDepthMask" op_depthmask "i"
    ∷ entry "glColorMask" op_colormask "iiii"
    ∷ entry "glShadeModel" op_shademodel "i"
    ∷ entry "glLogicOp" op_logicop "i"
    ∷ entry "glClear" op_clear "i"
    ∷ entry "glClearColor" op_clearcolor "ffff"
    ∷ entry "glClearColorx" op_clearcolor "xxxx"
    ∷ entry "glScissor" op_scissor "iiii"
    ∷ entry "glViewport" op_viewport "iiii"
    ∷ entry "glLoadIdentity" op_loadidentity ""
    ∷ entry "glPushMatrix" op_pushmatrix ""
    ∷ entry "glPopMatrix" op_popmatrix ""
    ∷ entry "glActiveTexture" op_activetexture "i"
    ∷ entry "glAlphaFunc" op_alphafunc "if"
    ∷ entry "glAlphaFuncx" op_alphafunc "ix"
    ∷ entry "glClearStencil" op_clearstencil "i"
    ∷ entry "glStencilFunc" op_stencilfunc "iii"
    ∷ entry "glStencilOp" op_stencilop "iii"
    ∷ entry "glStencilMask" op_stencilmask "i"
    ∷ entry "glPolygonOffset" op_polygonoffset "ff"
    ∷ entry "glPolygonOffsetx" op_polygonoffset "xx"
    ∷ entry "glSampleCoverage" op_samplecoverage "fi"
    ∷ entry "glSampleCoveragex" op_samplecoverage "xi"
    ∷ entry "glHint" op_hint "ii"
    ∷ entry "glLightf" op_lightf "iif"
    ∷ entry "glLightx" op_lightf "iix"
    ∷ entry "glLightModelf" op_lightmodelf "if"
    ∷ entry "glLightModelx" op_lightmodelf "ix"
    ∷ entry "glMaterialf" op_materialf "iif"
    ∷ entry "glMaterialx" op_materialf "iix"
    ∷ entry "glFogf" op_fogf "if"
    ∷ entry "glFogx" op_fogf "ix"
    ∷ entry "glPointParameterf" op_pointparamf "if"
    ∷ entry "glPointParameterx" op_pointparamf "ix"
    ∷ entry "glNormal3f" op_normal3f "fff"
    ∷ entry "glNormal3x" op_normal3f "xxx"
    ∷ entry "glMultiTexCoord4f" op_multitexcoord4f "iffff"
    ∷ entry "glMultiTexCoord4x" op_multitexcoord4f "ixxxx"
    ∷ entry "glFlush" op_flush ""
    ∷ entry "glFinish" op_finish ""
    ∷ entry "glGetError" op_geterror ""
    ∷ entry "glLightfv" op_lightfv "iip"
    ∷ entry "glLightxv" op_lightfv "iiP"
    ∷ entry "glLightModelfv" op_lightmodelfv "ip"
    ∷ entry "glLightModelxv" op_lightmodelfv "iP"
    ∷ entry "glMaterialfv" op_materialfv "iip"
    ∷ entry "glMaterialxv" op_materialfv "iiP"
    ∷ entry "glFogfv" op_fogfv "ip"
    ∷ entry "glFogxv" op_fogfv "iP"
    ∷ entry "glTexEnvfv" op_texenvfv "iip"
    ∷ entry "glTexEnvxv" op_texenvfv "iiP"
    ∷ entry "glTexEnviv" op_texenvfv "iiI"
    ∷ entry "glTexParameterfv" op_texparamfv "iip"
    ∷ entry "glTexParameterxv" op_texparamfv "iiP"
    ∷ entry "glTexParameteriv" op_texparamfv "iiI"
    ∷ entry "glPointParameterfv" op_pointparamfv "ip"
    ∷ entry "glPointParameterxv" op_pointparamfv "iP"
    ∷ entry "glClipPlanef" op_clipplanef "ip"
    ∷ entry "glClipPlanex" op_clipplanef "iP"
    ∷ entry "glLoadMatrixf" op_loadmatrix "p"
    ∷ entry "glLoadMatrixx" op_loadmatrix "P"
    ∷ entry "glMultMatrixf" op_multmatrix "p"
    ∷ entry "glMultMatrixx" op_multmatrix "P"
    ∷ entry "glVertexPointer" op_vertexptr "iiip"
    ∷ entry "glNormalPointer" op_normalptr "iip"
    ∷ entry "glColorPointer" op_colorptr "iiip"
    ∷ entry "glTexCoordPointer" op_texcoordptr "iiip"
    ∷ entry "glPointSizePointerOES" op_pointsizeptr "iip"
    ∷ entry "glEnableClientState" op_enableclient "i"
    ∷ entry "glDisableClientState" op_disableclient "i"
    ∷ entry "glClientActiveTexture" op_clientactivetex "i"
    ∷ entry "glBindBuffer" op_bindbuffer "ii"
    ∷ entry "glGenBuffers" op_genbuffers "ip"
    ∷ entry "glDeleteBuffers" op_deletebuffers "ip"
    ∷ entry "glBufferData" op_bufferdata "iipi"
    ∷ entry "glBufferSubData" op_buffersubdata "iiip"
    ∷ entry "glPixelStorei" op_pixelstore "ii"
    ∷ entry "glGetString" op_getstring "i"
    ∷ entry "glDrawArrays" op_drawarrays "iii"
    ∷ entry "glDrawElements" op_drawelements "iiip"
    ∷ entry "glTexImage2D" op_teximage2d "iiiiiiiip"
    ∷ entry "glTexSubImage2D" op_texsubimage2d "iiiiiiiip"
    ∷ entry "glCompressedTexImage2D" op_compressedteximage2d "iiiiiiip"
    ∷ entry "glCompressedTexSubImage2D" op_compressedtexsubimage2d "iiiiiiiip"
    ∷ entry "glCopyTexImage2D" op_copyteximage2d "iiiiiiii"
    ∷ entry "glCopyTexSubImage2D" op_copytexsubimage2d "iiiiiiii"
    ∷ entry "glReadPixels" op_readpixels "iiiiiip"
    ∷ entry "glGenTextures" op_gentextures "ip"
    ∷ entry "glDeleteTextures" op_deletetextures "ip"
    ∷ entry "glIsTexture" op_istexture "i"
    ∷ entry "glIsEnabled" op_isenabled "i"
    ∷ entry "glGetFloatv" op_getfloatv "ip"
    ∷ entry "glGetIntegerv" op_getintegerv "ip"
    ∷ entry "glGetBooleanv" op_getbooleanv "ip"
    ∷ entry "glGetFixedv" op_getfixedv "ip"
    ∷ entry "glGetLightfv" op_getlightfv "iip"
    ∷ entry "glGetLightxv" op_getlightfv "iiP"
    ∷ entry "glGetMaterialfv" op_getmaterialfv "iip"
    ∷ entry "glGetMaterialxv" op_getmaterialfv "iiP"
    ∷ entry "glGetTexEnvfv" op_gettexenvfv "iip"
    ∷ entry "glGetTexEnviv" op_gettexenvfv "iiI"
    ∷ entry "glGetTexEnvxv" op_gettexenvfv "iiP"
    ∷ entry "glGetTexParameterfv" op_gettexparamfv "iip"
    ∷ entry "glGetTexParameteriv" op_gettexparamfv "iiI"
    ∷ entry "glGetTexParameterxv" op_gettexparamfv "iiP"
    ∷ entry "glGetClipPlanef" op_getclipplanef "ip"
    ∷ entry "glGetClipPlanex" op_getclipplanef "iP"
    ∷ entry "glGetBufferParameteriv" op_getbufferparam "iip"
    ∷ entry "glGetPointerv" op_getpointerv "ip"
    ∷ entry "glDrawTexfOES" op_drawtex "fffff"
    ∷ entry "glDrawTexxOES" op_drawtex "xxxxx"
    ∷ entry "glDrawTexiOES" op_drawtex "IIIII"
    ∷ entry "glDrawTexsOES" op_drawtex "IIIII"
    ∷ entry "eglSwapBuffers" op_swapbuffers "ii"
    ∷ entry "eglWaitGL" op_egl_true ""
    ∷ entry "eglWaitNative" op_egl_true "i"
    ∷ opt_in_entry "glBindFramebufferOES" op_bindframebuffer "ii"
    ∷ opt_in_entry "glBindRenderbufferOES" op_bindrenderbuffer "ii"
    ∷ opt_in_entry "glGenFramebuffersOES" op_genframebuffers "ip"
    ∷ opt_in_entry "glGenRenderbuffersOES" op_genrenderbuffers "ip"
    ∷ opt_in_entry "glDeleteFramebuffersOES" op_deleteframebuffers "ip"
    ∷ opt_in_entry "glDeleteRenderbuffersOES" op_deleterenderbuffers "ip"
    ∷ opt_in_entry "glRenderbufferStorageOES" op_renderbufferstorage "iiii"
    ∷ opt_in_entry "glFramebufferRenderbufferOES" op_framebufferrenderbuffer "iiii"
    ∷ opt_in_entry "glFramebufferTexture2DOES" op_framebuffertexture2d "iiiii"
    ∷ opt_in_entry "glCheckFramebufferStatusOES" op_checkframebuffer "i"
    ∷ opt_in_entry "glGenerateMipmapOES" op_generatemipmap "i"
    ∷ opt_in_entry "glEGLImageTargetTexture2DOES" op_eglimage_tex2d "ii"
    ∷ opt_in_entry "eglCreatePbufferSurface" op_egl_surface "iip"
    ∷ opt_in_entry "eglCreatePixmapSurface" op_egl_surface "iiip"
    ∷ opt_in_entry "eglDestroySurface" op_egl_true "ii"
    ∷ opt_in_entry "eglQuerySurface" op_egl_querysurface "iiip"
    ∷ opt_in_entry "eglMakeCurrent" op_egl_true "iiii"
    ∷ opt_in_entry "eglGetCurrentSurface" op_egl_cursurface "i"
    ∷ opt_in_entry "eglSwapInterval" op_egl_true "ii"
    ∷ opt_in_entry "eglCreateImageKHR" op_egl_no_image "iiiip"
    ∷ opt_in_entry "eglDestroyImageKHR" op_egl_true "ii"
    ∷ []
