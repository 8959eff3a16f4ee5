-- ===== src/Server/Wal/Replay.antt =====
-- Reading a directory of log files back (WalDirectoryReader of src/server/wal.rs, the loop of init_wal
-- in src/server/server.rs).
use cixrs.Base.{
  ℕ, zero, suc, ◌+◌, ◌≤◌, ◌<◌, ◌≡◌, refl, sym, ap, ◌∙◌, ◌⊎◌, inl, inr, Option, none, some, List, [],
  ◌∷◌, ◌++◌, length, length-append, replicate, arith, Result, success, get_elem?,
}
use cixrs.Run.{ok}
use cixrs.Server.Messages.{EngineMessage}
use cixrs.Server.OpenOrders.{drop}
use cixrs.Server.Wal.{Codec, WalError, Disk, contents, WalFile, open_file, get_all_files}
use cixrs.Server.Wal.Reader.{WalDirectoryReader, read_open, open_next, next, replay}
use cixrs.Server.Wal.File.{
  IsCodec, IsAt, IsReadable, AllEntries, encode_all, advance_entry-next, advance_entry-end,
  length-replicate, append_regroup,
}

-- A list of files, each with its entries.
abbrev pub Logs : Type 0
Logs = List (ℕ × List EngineMessage)

abbrev pub entries_of : Logs → List EngineMessage
entries_of [] = []
entries_of (f ∷ fs) = f.1 ++ entries_of fs

abbrev pub indices : Logs → List ℕ
indices [] = []
indices (f ∷ fs) = f.0 ∷ indices fs

pub indices-append : (fs gs : Logs) → indices (fs ++ gs) ≡ indices fs ++ indices gs
indices-append [] gs = refl
indices-append (f ∷ fs) gs = ap (◌∷◌ f.0) (indices-append fs gs)

pub entries_of-append : (fs gs : Logs) → entries_of (fs ++ gs) ≡ entries_of fs ++ entries_of gs
entries_of-append [] gs = refl
entries_of-append (f ∷ fs) gs =
    ap (λ z. f.1 ++ z) (entries_of-append fs gs)
    ∙ sym (append_regroup f.1 (entries_of fs) (entries_of gs))

pub next_left_at :
    (n : ℕ) (xs ys : List ℕ) (y : ℕ)
    → drop n xs ≡ y ∷ ys
    → (get_elem? xs n ≡ some y) × (drop (n + 1) xs ≡ ys)
next_left_at zero [] ys y h = absurd (cc)
next_left_at zero (x ∷ xs) ys y h = ((cc), (cc))
next_left_at (suc n) [] ys y h = absurd (cc)
next_left_at (suc n) (x ∷ xs) ys y h =
    let r = next_left_at n xs ys y h in
    let e : suc n + 1 ≡ suc (n + 1) = omega arith in (r.0, ap (λ z. drop z (x ∷ xs)) e ∙ r.1)

none_left_at : (n : ℕ) (xs : List ℕ) → drop n xs ≡ [] → get_elem? xs n ≡ none
none_left_at zero [] h = refl
none_left_at zero (x ∷ xs) h = absurd (cc)
none_left_at (suc n) [] h = refl
none_left_at (suc n) (x ∷ xs) h = none_left_at n xs h

pub length-drop_le : (n : ℕ) (xs : List ℕ) → length (drop n xs) ≤ length xs
length-drop_le zero xs = omega arith
length-drop_le (suc n) [] = omega arith
length-drop_le (suc n) (x ∷ xs) = omega (arith, length-drop_le n xs)

module _ {codec : Codec} (c : IsCodec codec) (fault : ℕ → Option WalError) where
  -- A file of the disk that opens and holds the entries, with an end that can be read.
  pub record IsLogged (disk : Disk) (i : ℕ) (ms : List EngineMessage) : Type 0 where
    pub tail : ℕ
    pub bytes : contents i disk ≡ some (encode_all c ms ++ replicate tail 0)
    pub readable : IsReadable tail
    pub opens : fault i ≡ none
    pub entries : AllEntries ms

  abbrev pub AllLogged : Disk → Logs → Type 0
  AllLogged disk [] = Unit {0}
  AllLogged disk (f ∷ fs) = IsLogged disk f.0 f.1 × AllLogged disk fs

  -- What is left to read in the open file, if one is open.
  pub data IsReading (disk : Disk) : Option WalFile → List EngineMessage → Type 0 where
    closed : IsReading disk none []
    opened :
        {w : WalFile} {ms : List EngineMessage} (k : ℕ)
        → IsAt c fault disk w ms k
        → IsReadable k
        → IsReading disk (some w) ms

  -- What is left to read of the directory.
  pub record IsPending (disk : Disk) (r : WalDirectoryReader) (ms : List EngineMessage) (fs : Logs)
      : Type 0 where
    pub reading : IsReading disk r.reader ms
    pub files : drop r.file_index r.files ≡ indices fs
    pub logged : AllLogged disk fs

  pub read_open-end :
      (disk : Disk) (o : Option WalFile)
      → IsReading disk o []
      → (o' : Option WalFile) × (read_open codec fault o disk ≡ ok (o', none) disk)
        × IsReading disk o' []
  unfolding read_open
  read_open-end disk none closed = (none, refl, closed)
  read_open-end disk (some w) (opened k at r) =
      (some w, rw (advance_entry-end c fault disk w k at r) refl, opened k at r)

  pub read_open-next :
      (disk : Disk) (o : Option WalFile) (m : EngineMessage) (ms : List EngineMessage)
      → IsReading disk o (m ∷ ms)
      → (o' : Option WalFile) × (read_open codec fault o disk ≡ ok (o', some (success m)) disk)
        × IsReading disk o' ms
  unfolding read_open
  read_open-next disk none m ms h = elim h [ ]
  read_open-next disk (some w) m ms (opened k at r) =
      let (w', e, at', _) = advance_entry-next c fault disk w m ms k at in
      (some w', rw e refl, opened k at' r)

  pub opened-IsAt :
      (disk : Disk) (i : ℕ) (ms : List EngineMessage) (l : IsLogged disk i ms)
      → IsAt c fault disk
          (record {
            file = i;
            cursor = 0;
            capacity = length (encode_all c ms ++ replicate l.tail 0);
          })
          ms
          l.tail
  opened-IsAt disk i ms l = record {
    pre = [];
    bytes = l.bytes;
    cursor = refl;
    capacity = omega (
      arith,
      length-append (encode_all c ms) (replicate l.tail 0),
      length-replicate {A = ℕ} l.tail 0,
    );
    entries = l.entries;
  }

  pub open_file-ok :
      (disk : Disk) (i : ℕ) (ms : List EngineMessage) (l : IsLogged disk i ms)
      → open_file codec fault i disk
        ≡ ok
            (success (record {
              file = i;
              cursor = 0;
              capacity = length (encode_all c ms ++ replicate l.tail 0);
            }))
            disk
  unfolding open_file
  open_file-ok disk i ms l = rw (open_file, l.bytes, l.opens) refl

  -- The outcome of `next`, where `all` is left to read: the end, or the first entry.
  pub data NextRead (disk : Disk) (files : List ℕ) (all : List EngineMessage)
      (r : WalDirectoryReader) : Option (Result WalError EngineMessage) → Type 0 where
    ended : all ≡ [] → NextRead disk files all r none
    entry :
        (m : EngineMessage) (ms : List EngineMessage) (fs : Logs)
        → all ≡ m ∷ (ms ++ entries_of fs)
        → r.files ≡ files
        → IsPending disk r ms fs
        → NextRead disk files all r (some (success m))

  next-NextRead :
      (disk : Disk) (fs : Logs) (k : ℕ) (r : WalDirectoryReader) (ms : List EngineMessage)
      → IsPending disk r ms fs
      → length (indices fs) < k
      → (r' : WalDirectoryReader) × (out : Option (Result WalError EngineMessage)) × (next codec
            fault k r disk
          ≡ ok (r', out) disk)
        × NextRead disk r.files (ms ++ entries_of fs) r' out
  unfolding next
  next-NextRead disk fs zero r ms p lt = absurd (omega (arith, lt))
  next-NextRead disk fs (suc k) r (m ∷ ms) p lt =
      let (o', e, reading) = read_open-next disk r.reader m ms p.reading in
      (
        record r { reader = o' },
        some (success m),
        (rw (next, e) refl),
        entry m ms fs refl refl (record { reading = reading; files = p.files; logged = p.logged }),
      )
  next-NextRead disk [] (suc k) r [] p lt =
      let (o', e, reading) = read_open-end disk r.reader p.reading in
      (
        record r { reader = o' },
        none,
        (rw (e, none_left_at r.file_index r.files p.files, open_next) refl),
        ended refl,
      )
  next-NextRead disk (f ∷ fs) (suc k) r [] p lt =
      let (o', e, reading) = read_open-end disk r.reader p.reading in
      let at_f = next_left_at r.file_index r.files (indices fs) f.0 p.files in
      let (l, ls) = p.logged in
      let w : WalFile = record {
        file = f.0;
        cursor = 0;
        capacity = length (encode_all c f.1 ++ replicate l.tail 0);
      } in
      let r1 : WalDirectoryReader = record r { reader = some w; file_index = r.file_index + 1 } in
      let (r2, out, run, n) =
        next-NextRead disk fs k r1 f.1
          (record {
            reading = opened l.tail (opened-IsAt disk f.0 f.1 l) l.readable;
            files = at_f.1;
            logged = ls;
          })
          (omega (arith, lt)) in
      (r2, out, (rw (e, at_f.0, open_next, open_file-ok disk f.0 f.1 l) run), n)

  NextRead-inv :
      {disk : Disk} {files : List ℕ} {all : List EngineMessage} {r : WalDirectoryReader}
      {out : Option (Result WalError EngineMessage)}
      → NextRead disk files all r out
      → ((all ≡ []) × (out ≡ none))
        ⊎ ((m : EngineMessage) × (ms : List EngineMessage) × (fs : Logs) × (all
              ≡ m ∷ (ms ++ entries_of fs))
            × (out ≡ some (success m))
            × IsPending disk r ms fs)
  NextRead-inv (ended e) = inl (e, refl)
  NextRead-inv (entry m ms fs e files p) = inr (m, ms, fs, e, refl, p)

  pending_short :
      (disk : Disk) (r : WalDirectoryReader) (ms : List EngineMessage) (fs : Logs)
      → IsPending disk r ms fs
      → length (indices fs) ≤ length r.files
  pending_short disk r ms fs p =
      omega (arith, ap length p.files, length-drop_le r.file_index r.files)

  -- From where the reader stands, the loop of init_wal reads all the entries that are left.
  replay-pending :
      (disk : Disk) (k : ℕ) (r : WalDirectoryReader) (ms : List EngineMessage) (fs : Logs)
      → IsPending disk r ms fs
      → length (ms ++ entries_of fs) < k
      → replay codec fault k r disk ≡ ok (ms ++ entries_of fs) disk
  unfolding replay
  replay-pending disk zero r ms fs p lt = absurd (omega (arith, lt))
  replay-pending disk (suc k) r ms fs p lt =
      let (r', out, run, n) =
        next-NextRead disk fs (length r.files + 1) r ms p
          (omega (arith, pending_short disk r ms fs p)) in
      elim (NextRead-inv n) [
        | inl (e, none_left) ↦ rw (run, none_left, e) refl
        | inr (m, ms', fs', e, found, p') ↦
            rw (run, found, replay-pending disk k r' ms' fs' p' (omega (arith, lt, ap length e)), e)
              refl
      ]

  -- Where the files of the directory, in the order of their indices, hold entries and end in a way that
  -- can be read, the loop of init_wal over a new reader ends, in as many turns as there are entries
  -- and one, and yields the entries of all files in this order.
  pub replay-logged :
      (disk : Disk) (fs : Logs) (k : ℕ)
      → get_all_files disk ≡ indices fs
      → AllLogged disk fs
      → length (entries_of fs) < k
      → replay codec fault k
          (record { files = get_all_files disk; file_index = 0; reader = none })
          disk
        ≡ ok (entries_of fs) disk
  replay-logged disk fs k e l lt =
      replay-pending disk k _ [] fs (record { reading = closed; files = e; logged = l }) lt
