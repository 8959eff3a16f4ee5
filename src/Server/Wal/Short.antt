-- ===== src/Server/Wal/Short.antt =====
-- A log file of src/server/wal.rs whose last entry leaves one to three bytes: fewer than a variant's
-- number has, so that they do not read as the end of the log.
use cixrs.Base.{
  ℕ, zero, suc, ◌+◌, ◌<◌, ◌≡◌, refl, ap, ◌∙◌, true, Option, none, some, List, [], ◌∷◌, ◌++◌, length,
  length-append, replicate, arith, success, failure,
}
use cixrs.Run.{ok}
use cixrs.Server.Messages.{EngineMessage}
use cixrs.Server.Wal.{Codec, WalError, Disk, contents, WalFile, get_all_files}
use cixrs.Server.Wal.File.{IsCodec, AllEntries, encode_all, length-replicate}
use cixrs.Server.Wal.{new, resume, open_file, advance_to_end, invalid_read}
use cixrs.Server.Wal.Reader.{WalDirectoryReader, replay}
use cixrs.Server.Wal.File.{IsAt, advance_entry-next, advance_entry-short}
use cixrs.Run.{panic, out_of_fuel}
use cixrs.Server.OpenOrders.{drop}
use cixrs.Server.Wal.Resume.{last_file-append}
use cixrs.Server.Wal.Replay.{
  Logs, AllLogged, indices, entries_of, IsReading, closed, opened, open_file-ok, opened-IsAt,
  read_open-end, read_open-next, next_left_at, length-drop_le,
}
use cixrs.Server.Wal.Reader.{next, open_next, read_open, after_open}

module _ {codec : Codec} (c : IsCodec codec) (fault : ℕ → Option WalError) where
  -- The loop of advance_to_end does not end, however many turns it has: reading fails at the same place
  -- each time, and a failure is an item like any other.
  advance_to_end-short :
      (disk : Disk) (k : ℕ) (w : WalFile) (ms : List EngineMessage) (tail : ℕ)
      → IsAt c fault disk w ms tail
      → 0 < tail
      → tail < 4
      → advance_to_end codec fault k w disk ≡ out_of_fuel
  unfolding advance_to_end
  advance_to_end-short disk zero w ms tail h pos lt = refl
  advance_to_end-short disk (suc k) w [] tail h pos lt =
      rw (advance_entry-short c fault disk w tail h pos lt)
        (advance_to_end-short disk k w [] tail h pos lt)
  advance_to_end-short disk (suc k) w (m ∷ ms) tail h pos lt =
      let (w', e, h', is) = advance_entry-next c fault disk w m ms tail h in
      rw e (advance_to_end-short disk k w' ms tail h' pos lt)

  module _ (disk : Disk) (tail : ℕ) (pos : 0 < tail) (lt : tail < 4) where
    next-error :
        (n : ℕ) (r : WalDirectoryReader) (w : WalFile) (files : List ℕ) (at : ℕ)
        → IsAt c fault disk w [] tail
        → next codec fault (suc n) (record { files = files; file_index = at; reader = some w }) disk
          ≡ ok
              (
                record { files = files; file_index = at; reader = some w },
                some (failure (invalid_read w.cursor)),
              )
              disk
    unfolding next read_open
    next-error n r w files at h = rw (advance_entry-short c fault disk w tail h pos lt) refl

    next-entry :
        (n : ℕ) (files : List ℕ) (at : ℕ) (w : WalFile) (m : EngineMessage)
        (ms : List EngineMessage)
        → IsAt c fault disk w (m ∷ ms) tail
        → (w' : WalFile) × (next codec fault
              (suc n)
              (record { files = files; file_index = at; reader = some w })
              disk
            ≡ ok
                (record { files = files; file_index = at; reader = some w' }, some (success m))
                disk)
          × IsAt c fault disk w' ms tail
    unfolding next read_open
    next-entry n files at w m ms h =
        let (w', e, h', is) = advance_entry-next c fault disk w m ms tail h in (w', rw e refl, h')

    -- A reader that takes its next turn from such a file never gets past its end.
    replay-error :
        (k : ℕ) (n : ℕ) (r : WalDirectoryReader) (at : ℕ) (w : WalFile) (ms : List EngineMessage)
        → IsAt c fault disk w ms tail
        → length ms < k
        → (next codec fault (length r.files + 1) r disk
            ≡ next codec fault
                (suc n)
                (record { files = r.files; file_index = at; reader = some w })
                disk)
        → replay codec fault k r disk ≡ panic
    unfolding replay
    replay-error zero n r at w ms h ms_lt e = absurd (omega (arith, ms_lt))
    replay-error (suc k) n r at w [] h ms_lt e = rw (e, next-error n r w r.files at h) refl
    replay-error (suc k) n r at w (m ∷ ms) h ms_lt e =
        let (w', found, h') = next-entry n r.files at w m ms h in
        let turn : length r.files + 1 ≡ suc (length r.files) = omega arith in
        let r' : WalDirectoryReader = record {
          files = r.files;
          file_index = at;
          reader = some w';
        } in
        rw
          (
            e,
            found,
            replay-error k (length r.files) r' at w' ms h' (omega (arith, ms_lt))
                (ap (λ z. next codec fault z r' disk) turn),
          )
          refl

  -- The reader has `ms` left of the open file, then the files of `fs` that can be read, then the file
  -- `i`, which ends in `tail` zeros.
  record IsAhead (disk : Disk) (i : ℕ) (r : WalDirectoryReader) (ms : List EngineMessage)
      (fs : Logs) : Type 0 where
    reading : IsReading c fault disk r.reader ms
    files : drop r.file_index r.files ≡ indices fs ++ (i ∷ [])
    logged : AllLogged c fault disk fs

  module _ (disk : Disk) (i : ℕ) (last : List EngineMessage) (tail : ℕ)
      (bytes : contents i disk ≡ some (encode_all c last ++ replicate tail 0))
      (opens : fault i ≡ none) (entries : AllEntries last) (pos : 0 < tail) (lt : tail < 4) where
    abbrev at_start : WalFile
    at_start = record {
      file = i;
      cursor = 0;
      capacity = length (encode_all c last ++ replicate tail 0);
    }

    at_start-IsAt : IsAt c fault disk at_start last tail
    at_start-IsAt = record {
      pre = [];
      bytes = bytes;
      cursor = refl;
      capacity = omega (
        arith,
        length-append (encode_all c last) (replicate tail 0),
        length-replicate {A = ℕ} tail 0,
      );
      entries = entries;
    }

    opens_at : open_file codec fault i disk ≡ ok (success at_start) disk
    unfolding open_file
    opens_at = rw (open_file, bytes, opens) refl

    -- A turn of a reader that is ahead of the file: an entry of the files before it, or the file opens.
    data Turn (k : ℕ) (r : WalDirectoryReader) (all : List EngineMessage) : Type 0 where
      entry :
          (r' : WalDirectoryReader) (m : EngineMessage) (ms : List EngineMessage) (fs : Logs)
          → next codec fault k r disk ≡ ok (r', some (success m)) disk
          → r'.files ≡ r.files
          → IsAhead disk i r' ms fs
          → all ≡ m ∷ (ms ++ entries_of fs)
          → Turn k r all
      reached :
          (n at : ℕ)
          → (next codec fault k r disk
              ≡ next codec fault
                  (suc n)
                  (record { files = r.files; file_index = at; reader = some at_start })
                  disk)
          → Turn k r all

    next-Turn :
        (fs : Logs) (k : ℕ) (r : WalDirectoryReader) (ms : List EngineMessage)
        → IsAhead disk i r ms fs
        → length (indices fs) + 1 < k
        → Turn k r (ms ++ entries_of fs)
    unfolding next open_next after_open
    next-Turn fs zero r ms p h = absurd (omega (arith, h))
    next-Turn fs (suc k) r (m ∷ ms) p h =
        let (o', e, reading) = read_open-next c fault disk r.reader m ms p.reading in
        entry (record r { reader = o' }) m ms fs (rw (next, e) refl) refl
          (record { reading = reading; files = p.files; logged = p.logged }) refl
    next-Turn [] (suc zero) r [] p h = absurd (omega (arith, h))
    next-Turn [] (suc (suc k)) r [] p h =
        let (o', e, reading) = read_open-end c fault disk r.reader p.reading in
        let at_i = next_left_at r.file_index r.files [] i p.files in
        reached k (r.file_index + 1) (rw (next, e, at_i.0, open_next, opens_at) refl)
    next-Turn (f ∷ fs) (suc k) r [] p h =
        let (o', e, reading) = read_open-end c fault disk r.reader p.reading in
        let at_f = next_left_at r.file_index r.files (indices fs ++ (i ∷ [])) f.0 p.files in
        let (l, ls) = p.logged in
        let w : WalFile = record {
          file = f.0;
          cursor = 0;
          capacity = length (encode_all c f.1 ++ replicate l.tail 0);
        } in
        let r1 : WalDirectoryReader = record r { reader = some w; file_index = r.file_index + 1 } in
        let step : next codec fault (suc k) r disk ≡ next codec fault k r1 disk =
          (rw (next, e, at_f.0, open_next, open_file-ok c fault disk f.0 f.1 l) refl) in
        elim (next-Turn fs k r1 f.1
          (record {
            reading = opened l.tail (opened-IsAt c fault disk f.0 f.1 l) l.readable;
            files = at_f.1;
            logged = ls;
          })
          (omega (arith, h))) [
            | entry r' m ms gs run same p' all ↦ entry r' m ms gs (step ∙ run) same p' all
            | reached n at run ↦ reached n at (step ∙ run)
          ]

    replay-ahead :
        (k : ℕ) (r : WalDirectoryReader) (ms : List EngineMessage) (fs : Logs)
        → IsAhead disk i r ms fs
        → length (ms ++ entries_of fs) + length last < k
        → replay codec fault k r disk ≡ panic
    unfolding replay
    replay-ahead zero r ms fs p h = absurd (omega (arith, h))
    replay-ahead (suc k) r ms fs p h =
        elim (next-Turn fs (length r.files + 1) r ms p (
          omega (
            arith,
            ap length p.files,
            length-append (indices fs) (i ∷ []),
            length-drop_le r.file_index r.files,
          ))) [
            | entry r' m ms' fs' run same p' all ↦
                rw (run, replay-ahead k r' ms' fs' p' (omega (arith, h, ap length all))) refl
            | reached n at run ↦
                replay-error disk tail pos lt (suc k) n r at at_start last at_start-IsAt
                  (omega (arith, h)) run
          ]

  -- Where the last file of the directory ends in one to three zeros after its entries and the files
  -- before it can be read, the entries do not come back: the loop of init_wal over a new reader panics,
  -- and opening the log does not end, however many turns it has.
  pub restart-short :
      (disk : Disk) (fs : Logs) (i : ℕ) (last : List EngineMessage) (tail size k : ℕ)
      → get_all_files disk ≡ indices fs ++ (i ∷ [])
      → AllLogged c fault disk fs
      → contents i disk ≡ some (encode_all c last ++ replicate tail 0)
      → fault i ≡ none
      → AllEntries last
      → 0 < tail
      → tail < 4
      → length (entries_of fs) + length last < k
      → (replay codec fault k
            (record { files = get_all_files disk; file_index = 0; reader = none })
            disk
          ≡ panic)
        × (new codec fault k true size disk ≡ out_of_fuel)
  unfolding new resume
  restart-short disk fs i last tail size k files logged bytes opens entries pos lt enough = (
    replay-ahead disk i last tail bytes opens entries pos lt k _ [] fs
        (record { reading = closed; files = files; logged = logged }) enough,
    rw
        (
          files,
          last_file-append (indices fs) i,
          opens_at disk i last tail bytes opens entries pos lt,
          advance_to_end-short disk k (at_start disk i last tail bytes opens entries pos lt) last
              tail (at_start-IsAt disk i last tail bytes opens entries pos lt) pos lt,
        )
        refl,
  )
