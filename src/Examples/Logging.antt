-- ===== src/Examples/Logging.antt =====
-- Two writes to the logs.
use codex_waiting_plgin.Logs.{
  write, empty_log_set, stderr, Encode, info, write_bounded, LogLimits, add_line, add_preview,
  add_lines, stdout,
}
use codex_waiting_plgin.Logs.Streams.{write_all, write_all-IsPrefixLog, Write, IsPrefixLog}
use codex_waiting_plgin.Logs.Bounds.{previewed, info_complete, preview-Fits, Fits}
use codex_waiting_plgin.Prelude.{◌≡◌, List, refl, ◌∷◌, [], false, true}

abbrev limits : LogLimits
limits = record {
  max_log_bytes = 5;
  max_preview_bytes = 8;
  max_preview_lines = 2;
  max_single_line_bytes = 8;
}

abbrev payload_only : Encode
payload_only n stream bytes = bytes

abbrev writes : List Write
writes = (stdout, 65 ∷ 66 ∷ 10 ∷ []) ∷ (stderr, 67 ∷ []) ∷ (stderr, []) ∷ []

write_all-IsPrefixLog_example :
    let s = write_all limits payload_only writes empty_log_set in
    IsPrefixLog limits false (65 ∷ 66 ∷ 10 ∷ []) s.out × IsPrefixLog limits true (67 ∷ []) s.err
write_all-IsPrefixLog_example = write_all-IsPrefixLog limits payload_only writes

preview-Fits_example : Fits limits (write_all limits payload_only writes empty_log_set).preview
preview-Fits_example = preview-Fits limits payload_only writes

info_complete_example :
    let s = write_all limits payload_only writes empty_log_set in
    (s.out.file ≡ 65 ∷ 66 ∷ 10 ∷ [])
    × (s.err.file ≡ 67 ∷ [])
    × (s.preview.bytes ≡ 65 ∷ 66 ∷ 10 ∷ 67 ∷ [])
unfolding info write_all write write_bounded add_preview add_lines add_line previewed
info_complete_example = info_complete limits payload_only writes refl
