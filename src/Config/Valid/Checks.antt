-- ===== src/Config/Valid/Checks.antt =====
-- The checks of the parts of a configuration accept exactly what their predicates say
-- (internal/config/config.go).
use xll_gen.Prelude.{
  ◌≡◌, ◌≢◌, ◌↔◌, refl, ◌||◌, List, [], ◌∷◌, Option, none, some, map, if◌then◌else◌, ◌==◌, text_eq,
  ==→≡, ==→≢, mem, All, Text, codes, Unicode, to_lower, arith, ℤ, pos, negsuc, is_negative, ◌/◌,
  ltb, Bool-cases, inl, inr,
}
use xll_gen.Config.{BuildConfig, LoggingConfig, ChunkConfig, ServerConfig, Event, RtdConfig}
use xll_gen.Config.Words.{valid_event_types}
use xll_gen.Config.Names.{is_listed, reject_control_chars, validate_prog_id, validate_clsid}
use xll_gen.Config.Functions.{is, is_parsed}
use xll_gen.Config.Checks.{
  Field, server_timeout, server_async_ack_timeout, chunk_cleanup_interval, chunk_buffer_ttl,
  rtd_prog_id, rtd_clsid, build_temp_dir, logging_dir, chunk_max_buffer_bytes,
  chunk_max_concurrent_transfers, text_refused, duration_unparsed, must_be_non_negative,
  singlefile_exe, singlefile_unknown, duplicate_event, unsupported_event, event_handler,
  invalid_level, prog_id_required, throttle_without_rtd, throttle_out_of_range, validate_build,
  validate_events, validate_logging, check_duration, validate_server_timeouts, check_throttle,
  validate_rtd, validate_server_chunk,
}
use xll_gen.Config.Iff.{
  ◌&◌, Passes, ↔-trans, first-Passes, fail_if-Passes, needs-Passes, excludes-Passes, if_set-Passes,
  set_needs-Passes, is_empty-false,
}
use xll_gen.Config.Valid.{
  IsEvent, IsBuild, IsLogging, IsDuration, IsServer, IsThrottle, IsRtd, IsChunk,
}
use xll_gen.Config.Valid.Names.{
  reject_control_chars-IsPrintable, validate_prog_id-IsProgId, validate_clsid_iff,
}
use xll_gen.Config.Valid.Distinct.{AreNew}
use xll_gen.Config.Valid.Commands.{in_text-Passes, check_handler-Passes}

singlefile-Passes :
    (s : Text)
    → Passes (
        if s == []
        then none
        else if is s "xll"
        then none
        else if is s "exe"
        then some singlefile_exe
        else some singlefile_unknown)
      ↔ (s ≢ [] → s ≡ codes "xll")
singlefile-Passes s = if_set-Passes s _ (elim (Bool-cases (is s "xll")) [
  | inl y ↦ rw y (λ h. ==→≡ s (codes "xll") y, λ h. refl)
  | inr n ↦ elim (Bool-cases (is s "exe")) [
    | inl y ↦ rw n (rw y (λ h. cc, λ h. absurd (==→≢ s (codes "xll") n h)))
    | inr m ↦ rw n (rw m (λ h. cc, λ h. absurd (==→≢ s (codes "xll") n h)))
  ]
])

pub validate_build-IsBuild : (b : BuildConfig) → Passes (validate_build b) ↔ IsBuild b
unfolding validate_build
validate_build-IsBuild b = first-Passes _ _ (singlefile-Passes b.singlefile) (
    ↔-trans (in_text-Passes (text_refused build_temp_dir) (reject_control_chars b.temp_dir))
      (reject_control_chars-IsPrintable b.temp_dir))

pub validate_events-IsEvent :
    (seen : List Text) (events : List Event)
    → Passes (validate_events seen events)
      ↔ (All IsEvent events & AreNew seen (map (λ evt. evt.type) events))
unfolding validate_events
validate_events-IsEvent seen [] = (λ h. (tt, tt), λ h. refl)
validate_events-IsEvent seen (evt ∷ events) =
    ↔-trans
      (first-Passes _ _ (fail_if-Passes (mem evt.type seen) (duplicate_event evt.type)) (
        first-Passes _ _
          (needs-Passes (is_listed evt.type valid_event_types) (unsupported_event evt.type))
          (first-Passes _ _ (check_handler-Passes (event_handler evt.handler) evt.handler)
            (validate_events-IsEvent (evt.type ∷ seen) events))))
      (
        λ (n, (a, (b, (as', ns)))). (((a, b), as'), (n, ns)),
        λ (((a, b), as'), (n, ns)). (n, (a, (b, (as', ns)))),
      )

pub validate_logging-IsLogging :
    (u : Unicode) (l : LoggingConfig) → Passes (validate_logging u l) ↔ IsLogging u l
unfolding validate_logging
validate_logging-IsLogging u l =
    let level = to_lower u l.level in
    first-Passes _ _
      (set_needs-Passes l.level
        (is level "debug" || is level "info" || is level "warn" || is level "error") invalid_level)
      (↔-trans (in_text-Passes (text_refused logging_dir) (reject_control_chars l.dir))
        (reject_control_chars-IsPrintable l.dir))

module _ (parse_duration : Text → Option ℤ) where
  check_duration-IsDuration :
      (field : Field) (s : Text)
      → Passes (check_duration parse_duration field s) ↔ IsDuration parse_duration s
  check_duration-IsDuration field s =
      set_needs-Passes s (is_parsed (parse_duration s)) (duration_unparsed field)

  pub validate_server_timeouts-IsServer :
      (s : ServerConfig)
      → Passes (validate_server_timeouts parse_duration s) ↔ IsServer parse_duration s
  unfolding validate_server_timeouts
  validate_server_timeouts-IsServer s =
      first-Passes _ _ (check_duration-IsDuration server_timeout s.timeout)
        (check_duration-IsDuration server_async_ack_timeout s.async_ack_timeout)

  check_throttle-IsThrottle :
      (o : Option ℤ) → Passes (check_throttle parse_duration o) ↔ IsThrottle parse_duration o
  check_throttle-IsThrottle none = (λ h. cc, λ (n, e, l). cc)
  check_throttle-IsThrottle (some (negsuc k)) = (λ h. cc, λ (n, e, l). cc)
  check_throttle-IsThrottle (some (pos k)) =
      let f = fail_if-Passes (ltb 2147483647 (k / 1000000)) throttle_out_of_range in
      (
        λ h. let b = f.0 h in (k, refl, ground arith),
        λ (n, e, l). let q : k ≡ n = cc in f.1 (ground arith),
      )

  pub validate_rtd-IsRtd :
      (u : Unicode) (r : RtdConfig)
      → Passes (validate_rtd parse_duration u r) ↔ IsRtd parse_duration u r
  unfolding validate_rtd
  validate_rtd-IsRtd u r =
      first-Passes _ _
        (↔-trans (excludes-Passes r.enabled (r.prog_id == []) prog_id_required)
          (λ h e. (is_empty-false r.prog_id).0 (h e), λ h e. (is_empty-false r.prog_id).1 (h e)))
        (first-Passes _ _
          (if_set-Passes r.prog_id _ (
            ↔-trans (in_text-Passes (text_refused rtd_prog_id) (validate_prog_id u r.prog_id))
              (validate_prog_id-IsProgId u r.prog_id)))
          (first-Passes _ _
            (if_set-Passes r.clsid _ (
              ↔-trans (in_text-Passes (text_refused rtd_clsid) (validate_clsid r.clsid))
                (validate_clsid_iff r.clsid)))
            (if_set-Passes r.throttle_interval _ (
              first-Passes _ _ (needs-Passes r.enabled throttle_without_rtd)
                (check_throttle-IsThrottle (parse_duration r.throttle_interval))))))

  pub validate_server_chunk-IsChunk :
      (o : Option ChunkConfig)
      → Passes (validate_server_chunk parse_duration o) ↔ IsChunk parse_duration o
  unfolding validate_server_chunk
  validate_server_chunk-IsChunk none = (λ h. tt, λ h. refl)
  validate_server_chunk-IsChunk (some c) =
      first-Passes _ _
        (fail_if-Passes (is_negative c.max_buffer_bytes)
          (must_be_non_negative chunk_max_buffer_bytes))
        (first-Passes _ _ (check_duration-IsDuration chunk_cleanup_interval c.cleanup_interval) (
          first-Passes _ _ (check_duration-IsDuration chunk_buffer_ttl c.buffer_ttl) (
            fail_if-Passes (is_negative c.max_concurrent_transfers)
              (must_be_non_negative chunk_max_concurrent_transfers))))
