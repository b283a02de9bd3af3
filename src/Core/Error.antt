-- ===== src/Core/Error.antt =====
-- crates/rip-core/src/lib.rs: `ValidationError`. Its field is one of a fixed set of `&'static str`
-- codes, which are the constructors here.
pub data ValidationError : Type 0 where
  invalid_state_transition unsupported_document engine_format_mismatch : ValidationError
  page_selection_requires_pdf invalid_name invalid_dpi invalid_priority : ValidationError
  invalid_raster_layout resource_limit : ValidationError
  invalid_page_ranges page_range_out_of_bounds : ValidationError
  invalid_page_mapping page_not_rendered : ValidationError
  unsupported_ticket_version ticket_manifest_mismatch invalid_source_reference : ValidationError
  invalid_source_evidence unsupported_ticket_setting unsupported_ticket_output : ValidationError
