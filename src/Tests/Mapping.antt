-- ===== src/Tests/Mapping.antt =====
-- crates/rip-core/src/pages.rs: the mapping of rendered pages at concrete artifacts.
use rip_server.Common.{ℕ, ◌≡◌, refl, List, [], ◌∷◌, ok, err, some, arith}
use rip_server.Common.Ascending.{Between}
use rip_server.Common.Bytes.{codes}
use rip_server.Core.Document.{pdf, rgb, EnginePreference, Manifest}
use rip_server.Core.Error.{page_not_rendered}
use rip_server.Core.Mapping.{
  Artifact, source_mapping, first_count, mismatched, binary_search, find_all, delivery_indices,
}
use rip_server.Core.Mapping.Delivery.{Picks, delivery_indices-Picks}
use rip_server.Core.Mapping.Source.{IsMapping, source_mapping-IsMapping}
use rip_server.Core.Pages.{PageRange, PageRanges}
use rip_server.Core.Pages.Render
use rip_server.Core.Pages.Strict

abbrev range : ℕ → ℕ → PageRange
range first last = record { first = first; last = last }

abbrev manifest : Manifest
manifest = record {
  page_ranges = Render.strict (record { ranges = range 2 2 ∷ range 5 5 ∷ [] });
  name = codes "test.pdf";
  format = pdf;
  dpi = 72;
  color_mode = rgb;
  priority = 50;
  engine = EnginePreference.auto;
}

abbrev artifact : ℕ → ℕ → Artifact
artifact page source = record {
  source_page = some source;
  source_page_count = some 6;
  page = page;
  name = codes "page.tiff";
  media_type = codes "image/tiff";
  bytes = 8;
  sha256 = [];
}

abbrev artifacts : List Artifact
artifacts = artifact 1 2 ∷ artifact 2 5 ∷ []

abbrev mapping : List ℕ
mapping = 2 ∷ 5 ∷ []

mapping_runs : source_mapping manifest artifacts ≡ ok (mapping, 6)
unfolding source_mapping Render.is_all Render.indices first_count mismatched
mapping_runs = refl

source_mapping-IsMapping_example : IsMapping manifest artifacts mapping 6
source_mapping-IsMapping_example =
    source_mapping-IsMapping manifest artifacts (omega arith) mapping_runs

abbrev fifth : PageRanges
fifth = record { ranges = range 5 5 ∷ [] }

delivery_runs : delivery_indices fifth mapping 6 ≡ ok (1 ∷ [])
unfolding delivery_indices Strict.indices find_all binary_search
delivery_runs = refl

delivery_refuses :
    delivery_indices (record { ranges = range 3 3 ∷ [] }) mapping 6 ≡ err page_not_rendered
unfolding delivery_indices Strict.indices find_all binary_search
delivery_refuses = refl

delivery_indices-Picks_example :
    Between 0 2 (1 ∷ [])
    × ((positions : List ℕ) × (Strict.indices fifth 6 ≡ ok positions)
        × Picks mapping positions (1 ∷ []))
delivery_indices-Picks_example =
    delivery_indices-Picks fifth 1 7 100 6 mapping (omega arith) (omega arith)
      (unfold Strict.is_all in refl) delivery_runs
