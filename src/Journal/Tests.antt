-- ===== src/Journal/Tests.antt =====
-- The journal at work.
use vibe_os.Base.{
  ◌+◌, ◌<◌, ◌≡◌, false, ◌&&◌, none, List, [], ◌∷◌, arith, ltb, leb, if◌then◌else◌, length,
  get_elem?,
}
use vibe_os.Journal.{Level, Entry, Journal, capacity, journal_init, journal_total, journal_get}
use vibe_os.Journal.Window.{Event, log_all, history, journal_get-history}
use vibe_os.Journal.Format.{journal_format_all}
use vibe_os.Journal.Format.Bounds.{journal_format_all-fits}

abbrev blank : Entry
blank = record { seq = 0; tick = 0; boot_id = 0; hz = 0; level = 0; pid = 0; msg = [] }

abbrev fresh : Journal
fresh = record { ring = λ i. blank; next_seq = 3; boot_id = 7; persist_pending = false }

abbrev events : List Event
events =
    record { tick = 10; hz = 100; level = Level.info; pid = 1; msg = 97 ∷ [] }
    ∷ record { tick = 20; hz = 100; level = Level.fault; pid = 2; msg = 98 ∷ [] }
    ∷ []

journal_get-history_example :
    let j' = log_all (journal_init fresh 42) events in
    (journal_total j' ≡ 2)
    × (journal_get j' 1
        ≡ (if ltb 1 2 && leb 2 (1 + capacity) then get_elem? (history 42 0 events) 1 else none))
journal_get-history_example = journal_get-history fresh 42 events 1 (omega arith)

journal_format_all-fits_example :
    let (text, nul) = journal_format_all fresh 100 64 in (length text < 64) × (nul ≡ length text)
journal_format_all-fits_example = journal_format_all-fits fresh 100 64 (omega arith)
