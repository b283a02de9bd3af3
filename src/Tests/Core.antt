-- ===== src/Tests/Core.antt =====
-- crates/rip-core/src/lib.rs at concrete inputs.
use mathlib.Core.List.{Memᴰ}
use rip_server.Common.{◌≡◌, refl, ◌↔◌, ◌≤◌, List, [], ◌∷◌, ok, arith}
use rip_server.Common.Bytes.{Bytes, codes, starts_with}
use rip_server.Core.Document.{
  pdf, eps, EnginePreference, Manifest, RasterLayout, cmyk, detect, validate, byte_len, bad_name,
}
use rip_server.Core.Document.Detect.{}
use rip_server.Core.Document.Layout.{byte_len_iff, raster_size}
use rip_server.Core.Document.Validate.{IsRunnable, validate_iff}
use rip_server.Core.Pages.Render
use rip_server.Core.State.{
  JobState, received, validating, queued, ripping, color_processing, spooling, printing, completed,
  held, terminal, transition,
}
use rip_server.Core.State.Diagram.{}
use rip_server.Core.State.Trace.{phase, replay, completed_needs_rendering}

abbrev life : List JobState
life =
    validating ∷ held ∷ queued ∷ ripping ∷ color_processing ∷ spooling ∷ printing ∷ completed ∷ []

completed_needs_rendering_example : Memᴰ ripping life × Memᴰ spooling life
completed_needs_rendering_example =
    completed_needs_rendering received life (unfold phase in refl)
      (unfold replay transition terminal in refl)

abbrev eps_head : Bytes
eps_head = codes "%!PS-Adobe-3.0 EPSF-3.0"

detect_eps : detect eps_head ≡ ok eps
unfolding detect starts_with
detect_eps = refl

abbrev layout : RasterLayout
layout = record {
  width = 1024;
  height = 1024;
  channels = 4;
  bits_per_channel = 16;
  xdpi = 600;
  ydpi = 600;
}

byte_len_fits : byte_len layout 8388608 ≡ ok 8388608
unfolding byte_len
byte_len_fits = refl

byte_len_iff_example :
    (byte_len layout 8388608 ≡ ok 8388608) ↔ ((raster_size layout ≡ 8388608) × (8388608 ≤ 8388608))
byte_len_iff_example = byte_len_iff layout 8388608 8388608 (omega arith) (ground arith)

abbrev manifest : Manifest
manifest = record {
  page_ranges = Render.default;
  name = codes "basic.pdf";
  format = pdf;
  dpi = 300;
  color_mode = cmyk;
  priority = 50;
  engine = EnginePreference.auto;
}

validate_iff_example : (validate manifest ≡ ok tt) ↔ IsRunnable manifest
validate_iff_example = validate_iff manifest

validate_runs : validate manifest ≡ ok tt
unfolding validate bad_name Render.is_all
validate_runs = refl
