-- ===== src/Store/Recovery/Torn.antt =====
-- internal/store/store.go: `replayAndOpenFile` on a log whose last write was cut short.
use talkintent.Common.{
  Bool-cases, inl, inr, ltb, ℕ, ◌+◌, true, false, ◌≡◌, refl, ap, ◌∙◌, some, List, [], ◌∷◌, ◌++◌,
  length, take, length-append, take-append, arith,
}
use mathlib.Core.List.{append_assoc}
use talkintent.Store.Library.{Library}
use talkintent.Store.State.{Index}
use talkintent.Store.Event.{Event, apply_event, replay_from}
use talkintent.Store.Recovery.{
  Bytes, Content, unreadable, entry, newline, read_lines, Scan, scan_start, scan_content, scan,
  Disk, finish_open, replay_and_open_file,
}
use talkintent.Store.Recovery.Lines.{has_newline, read_lines-line, read_lines-torn}

abbrev pub working : Disk
working = record { opens = true; reads = true; truncates = true; seeks = true }

module _ (lib : Library) (encode : Event → Bytes) (parse : Bytes → Content) where
  -- The bytes that `appendEventLocked` has written.
  abbrev pub log_bytes : List Event → Bytes
  log_bytes [] = []
  log_bytes (e ∷ es) = encode e ++ newline ∷ log_bytes es

  -- The state of the scan behind the events.
  abbrev behind : Scan → List Event → Scan
  behind s [] = s
  behind s (e ∷ es) =
      behind (scan_content lib (length (encode e ++ newline ∷ [])) (entry (some e)) s) es

  behind-index : (es : List Event) (s : Scan) → (behind s es).index ≡ replay_from lib s.index es
  unfolding replay_from
  behind-index [] s = refl
  behind-index (e ∷ es) s = behind-index es _

  behind-current :
      (es : List Event) (s : Scan)
      → (behind s es).current_offset ≡ s.current_offset + length (log_bytes es)
  behind-current [] s = omega arith
  behind-current (e ∷ es) s = omega (
    arith,
    behind-current es (scan_content lib (length (encode e ++ newline ∷ [])) (entry (some e)) s),
    length-append (encode e) (newline ∷ []),
    length-append (encode e) (newline ∷ log_bytes es),
  )

  -- Every line is kept.
  behind-valid :
      (es : List Event) (s : Scan)
      → s.last_valid_offset ≡ s.current_offset
      → (behind s es).last_valid_offset ≡ (behind s es).current_offset
  behind-valid [] s h = h
  behind-valid (e ∷ es) s h = behind-valid es _ refl

  -- json.Marshal of these events has no newline, and a line of it is read as the event.
  abbrev pub AreLines : List Event → Type 0
  AreLines [] = Unit
  AreLines (e ∷ es) =
      (has_newline (encode e) ≡ false)
      × (parse (encode e ++ newline ∷ []) ≡ entry (some e))
      × AreLines es

  scan-log :
      (es : List Event) (t : Bytes) (s : Scan)
      → AreLines es
      → scan lib parse s (read_lines (log_bytes es ++ t))
        ≡ scan lib parse (behind s es) (read_lines t)
  unfolding scan
  scan-log [] t s a = refl
  scan-log (e ∷ es) t s a =
      ap (λ b. scan lib parse s (read_lines b)) (append_assoc (encode e) (newline ∷ log_bytes es) t)
      ∙ ap (scan lib parse s) (read_lines-line (encode e) (log_bytes es ++ t) a.0)
      ∙ ap
          (λ c.
            scan lib parse (scan_content lib (length (encode e ++ newline ∷ [])) c s)
              (read_lines (log_bytes es ++ t)))
          a.1
      ∙ scan-log es t _ a.2

  -- A last line, whatever it says
  scan-last :
      (es : List Event) (t : Bytes) (c : Content) (s : Scan)
      → AreLines es
      → read_lines t ≡ t ∷ []
      → parse t ≡ c
      → scan lib parse s (read_lines (log_bytes es ++ t))
        ≡ scan_content lib (length t) c (behind s es)
  unfolding scan
  scan-last es t c s a r p =
      scan-log es t s a
      ∙ ap (scan lib parse (behind s es)) r
      ∙ ap (λ d. scan_content lib (length t) d (behind s es)) p

  cut_last :
      (x : Index) (es : List Event) (t : Bytes)
      → AreLines es
      → read_lines t ≡ t ∷ []
      → parse t ≡ unreadable
      → replay_and_open_file lib parse working x (log_bytes es ++ t)
        ≡ some (replay_from lib x es, log_bytes es)
  unfolding replay_and_open_file
  cut_last x es t a r p =
      ap (finish_open working (log_bytes es ++ t)) (scan-last es t unreadable (scan_start x) a r p)
      ∙ ap (λ y. some (y, take (behind (scan_start x) es).last_valid_offset (log_bytes es ++ t)))
          (behind-index es (scan_start x))
      ∙ ap (λ n. some (replay_from lib x es, take n (log_bytes es ++ t))) end_of
      ∙ ap (λ f. some (replay_from lib x es, f)) (take-append (log_bytes es) t)
    where
      end_of : (behind (scan_start x) es).last_valid_offset ≡ length (log_bytes es)
      end_of = omega (arith, behind-valid es (scan_start x) refl, behind-current es (scan_start x))

  -- Behind a log of events that are written on lines of their own, a part of a line without a
  -- newline that cannot be read is cut off, and the index is that of the events.
  pub recover-torn :
      (x : Index) (es : List Event) (b : ℕ) (t : Bytes)
      → AreLines es
      → has_newline (b ∷ t) ≡ false
      → parse (b ∷ t) ≡ unreadable
      → replay_and_open_file lib parse working x (log_bytes es ++ b ∷ t)
        ≡ some (replay_from lib x es, log_bytes es)
  recover-torn x es b t a h p = cut_last x es (b ∷ t) a (read_lines-torn b t h) p

  finish_open-whole :
      (file : Bytes) (n : ℕ) (e : Event) (s : Scan)
      → finish_open working file (scan_content lib n (entry (some e)) s)
        ≡ some (apply_event lib s.index e, file)
  finish_open-whole file n e s =
      elim (Bool-cases (ltb (s.current_offset + n) (s.current_offset + n))) [
        | inl y ↦ ground (arith, y)
        | inr z ↦ rw z refl
      ]

  -- Behind a log of events that are written on lines of their own, a last event that lacks its
  -- newline alone is read and kept. The next event then stands on its line: when the two together
  -- cannot be read, the next opening loses both.
  pub recover-glued :
      (x : Index) (es : List Event) (e f : Event) (b : ℕ) (t : Bytes)
      → AreLines es
      → encode e ≡ b ∷ t
      → has_newline (encode e ++ encode f) ≡ false
      → has_newline (encode e) ≡ false
      → parse (encode e) ≡ entry (some e)
      → parse ((encode e ++ encode f) ++ newline ∷ []) ≡ unreadable
      → (replay_and_open_file lib parse working x (log_bytes es ++ encode e)
          ≡ some (apply_event lib (replay_from lib x es) e, log_bytes es ++ encode e))
        × (replay_and_open_file lib parse working x
              (log_bytes es ++ ((encode e ++ encode f) ++ newline ∷ []))
            ≡ some (replay_from lib x es, log_bytes es))
  unfolding replay_and_open_file
  recover-glued x es e f b t a n h0 h p g = (
    ap (finish_open working (log_bytes es ++ encode e))
          (scan-last es (encode e) (entry (some e)) (scan_start x) a one p)
        ∙ finish_open-whole (log_bytes es ++ encode e) (length (encode e)) e
            (behind (scan_start x) es)
        ∙ ap (λ y. some (apply_event lib y e, log_bytes es ++ encode e))
            (behind-index es (scan_start x)),
    cut_last x es ((encode e ++ encode f) ++ newline ∷ []) a
        (read_lines-line (encode e ++ encode f) [] h0) g,
  )
    where
      one : read_lines (encode e) ≡ encode e ∷ []
      one = rw n (read_lines-torn b t (ground (arith, n, h)))
