-- ===== src/Server/Wal/Write.antt =====
-- Writing to the log (Wal::write_entry of src/server/wal.rs): what the directory holds.
use mathlib.Core.Path.{subst}
use cixrs.Base.{
  ℕ, ◌+◌, ◌-◌, ◌≤◌, ◌<◌, ◌≡◌, refl, sym, ap, ◌∙◌, ◌⊎◌, inr, true, false, Option, none, some, List,
  [], ◌∷◌, ◌++◌, length, length-append, replicate, arith, ◌==◌, ==_iff, leb,
}
use cixrs.Run.{ok}
use cixrs.Server.Messages.{EngineMessage}
use cixrs.Server.Wal.{
  Codec, WalError, Disk, contents, store, WalFile, Wal, written, log_full, write_to_file,
  write_bytes, get_all_files, insert_sorted, is_null_message,
}
use cixrs.Server.Wal.File.{
  IsCodec, IsReadable, AllEntries, encode_all, encode_all-append, append_regroup, append-nil,
  length-replicate, splice-append, drop-replicate,
}
use cixrs.Server.Wal.Replay.{
  Logs, IsLogged, AllLogged, indices, indices-append, entries_of, entries_of-append,
}
use cixrs.Server.Wal.Disk.{
  contents-store, contents-store_other, get_all_files-store, AllBelow, AllBelow-mono,
  AllBelow-append, insert_sorted-last, AllLogged-frame, AllLogged-append,
}

module _ {codec : Codec} (c : IsCodec codec) (fault : ℕ → Option WalError) where
  -- The log is open at the end of the last file of the directory, and the files hold `log`.
  pub record IsLog (disk : Disk) (wal : Wal) (log : List EngineMessage) : Type 0 where
    pub older : Logs
    pub newest : List EngineMessage
    pub log_is : log ≡ entries_of older ++ newest
    pub files : get_all_files disk ≡ indices older ++ (wal.wal.file ∷ [])
    pub logged : AllLogged c fault disk older
    pub current : IsLogged c fault disk wal.wal.file newest
    pub cursor : wal.wal.cursor ≡ length (encode_all c newest)
    pub capacity : wal.wal.capacity ≡ wal.wal.cursor + current.tail
    pub below : AllBelow wal.wal.file (indices older)
    pub above : (j : ℕ) → wal.wal.file < j → contents j disk ≡ none
    pub index : (wal.index ≡ wal.wal.file) ⊎ (wal.index ≡ wal.wal.file + 1)

  AllEntries-append :
      (ms ns : List EngineMessage) → AllEntries ms → AllEntries ns → AllEntries (ms ++ ns)
  AllEntries-append [] ns h k = k
  AllEntries-append (m ∷ ms) ns h k = (h.0, AllEntries-append ms ns h.1 k)

  -- The end that writing the entry leaves of `k` bytes can be read, if the entry fits.
  abbrev pub EndsWell : ℕ → EngineMessage → Type 0
  EndsWell k e = length (c.encode e) ≤ k → IsReadable (k - length (c.encode e))

  abbrev pub grown : List EngineMessage → EngineMessage → ℕ → List ℕ
  grown ms e k = encode_all c (ms ++ (e ∷ [])) ++ replicate (k - length (c.encode e)) 0

  grown_is :
      (ms : List EngineMessage) (e : EngineMessage) (k : ℕ)
      → grown ms e k ≡ encode_all c ms ++ (c.encode e ++ replicate (k - length (c.encode e)) 0)
  grown_is ms e k =
      let zeros : List ℕ = replicate (k - length (c.encode e)) 0 in
      ap (λ z. z ++ zeros) (encode_all-append c ms (e ∷ []))
      ∙ ap (λ z. (encode_all c ms ++ z) ++ zeros) (append-nil (c.encode e))
      ∙ append_regroup (encode_all c ms) (c.encode e) zeros

  test_holds : (a b : ℕ) → a ≤ b → leb a b ≡ true
  test_holds a b h = ground arith

  pub write_fits :
      (disk : Disk) (w : WalFile) (ms : List EngineMessage) (e : EngineMessage) (k : ℕ)
      → contents w.file disk ≡ some (encode_all c ms ++ replicate k 0)
      → w.cursor ≡ length (encode_all c ms)
      → w.capacity ≡ w.cursor + k
      → length (c.encode e) ≤ k
      → write_to_file codec fault w e disk
        ≡ ok
            (record w { cursor = w.cursor + length (c.encode e) }, written)
            (store w.file (grown ms e k) disk)
  unfolding write_to_file write_bytes
  write_fits disk w ms e k h cur cap le =
      let inside : leb (w.cursor + length (c.encode e)) (length (encode_all c ms ++ replicate k 0))
          ≡ true =
        test_holds _ _ (
          omega (
            arith,
            cur,
            le,
            length-append (encode_all c ms) (replicate k 0),
            length-replicate {A = ℕ} k 0,
          )) in
      rw
        (
          write_to_file,
          c.fits e (w.capacity - w.cursor) (omega (arith, cap, le)),
          h,
          write_bytes,
          inside,
        )
        (ap
          (λ z.
            ok (record w { cursor = w.cursor + length (c.encode e) }, written)
              (store w.file z disk))
          (splice-append (encode_all c ms) (c.encode e) (replicate k 0) w.cursor cur
            ∙ ap (λ z. encode_all c ms ++ (c.encode e ++ z))
                (drop-replicate (length (c.encode e)) k 0)
            ∙ sym (grown_is ms e k)))

  pub write_full :
      (disk : Disk) (w : WalFile) (e : EngineMessage) (k : ℕ)
      → w.capacity ≡ w.cursor + k
      → k < length (c.encode e)
      → write_to_file codec fault w e disk ≡ ok (w, log_full) disk
  unfolding write_to_file
  write_full disk w e k cap lt =
      rw (write_to_file, c.too_long e (w.capacity - w.cursor) (omega (arith, cap, lt))) refl

  -- After a write that fits.
  pub appended :
      (disk : Disk) (wal : Wal) (log : List EngineMessage) (e : EngineMessage)
      → (h : IsLog disk wal log) → is_null_message e ≡ false
      → IsReadable (h.current.tail - length (c.encode e))
      → length (c.encode e) ≤ h.current.tail
      → IsLog
          (store wal.wal.file (grown h.newest e h.current.tail) disk)
          (record wal { wal = record wal.wal { cursor = wal.wal.cursor + length (c.encode e) } })
          (log ++ (e ∷ []))
  appended disk wal log e h real ends le =
      let i = wal.wal.file in
      let disk' = store i (grown h.newest e h.current.tail) disk in
      record {
        older = h.older;
        newest = h.newest ++ (e ∷ []);
        log_is =
            ap (λ z. z ++ (e ∷ [])) h.log_is
            ∙ append_regroup (entries_of h.older) h.newest (e ∷ []);
        files = get_all_files-store i _ disk ∙ h.files;
        logged =
            AllLogged-frame c fault disk disk' i h.older h.below
              (λ j lt. contents-store_other i j _ disk (below_ne j i lt)) h.logged;
        current = record {
          tail = h.current.tail - length (c.encode e);
          bytes = contents-store i _ _ disk h.current.bytes;
          readable = ends;
          opens = h.current.opens;
          entries = AllEntries-append h.newest (e ∷ []) h.current.entries (real, tt);
        };
        cursor = omega (
          arith,
          h.cursor,
          ap length (encode_all-append c h.newest (e ∷ [])),
          length-append (encode_all c h.newest) (c.encode e ++ []),
          length-append (c.encode e) [],
        );
        capacity = omega (arith, h.capacity, le);
        below = h.below;
        above = λ j lt. contents-store_other i j _ disk (above_ne j i lt) ∙ h.above j lt;
        index = h.index;
      }
    where
      below_ne : (a b : ℕ) → a < b → (a == b) ≡ false
      below_ne a b lt = ground arith

      above_ne : (a b : ℕ) → b < a → (a == b) ≡ false
      above_ne a b lt = ground arith

  -- After a new file was opened for the log.
  abbrev pub rotated : Disk → Wal → Disk
  rotated disk wal = (wal.wal.file + 1, replicate wal.file_size 0) ∷ disk

  abbrev pub fresh_wal : Wal → Wal
  fresh_wal wal = record wal {
    wal = record { file = wal.wal.file + 1; cursor = 0; capacity = wal.file_size };
    index = wal.wal.file + 1 + 1;
  }

  other_file :
      (disk : Disk) (wal : Wal) (j : ℕ)
      → (j == wal.wal.file + 1) ≡ false
      → contents j (rotated disk wal) ≡ contents j disk
  unfolding contents
  other_file disk wal j e = rw (contents, e) refl

  new_file :
      (disk : Disk) (wal : Wal)
      → contents (wal.wal.file + 1) (rotated disk wal) ≡ some (replicate wal.file_size 0)
  unfolding contents
  new_file disk wal =
      let self : (wal.wal.file + 1 == wal.wal.file + 1) ≡ true = (==_iff _ _).1 refl in
      rw (contents, self) refl

  pub rotated-IsLog :
      (disk : Disk) (wal : Wal) (log : List EngineMessage)
      → IsLog disk wal log
      → IsReadable wal.file_size
      → fault (wal.wal.file + 1) ≡ none
      → (h' : IsLog (rotated disk wal) (fresh_wal wal) log) × (h'.newest ≡ [])
        × (h'.current.tail ≡ wal.file_size)
  unfolding get_all_files contents
  rotated-IsLog disk wal log h r good =
      let i = wal.wal.file in
      let last : Logs = (i, h.newest) ∷ [] in
      let below : AllBelow (i + 1) (indices (h.older ++ last)) =
        subst (AllBelow (i + 1)) (sym (indices-append h.older last)) (
          AllBelow-append (i + 1) (indices h.older) (i ∷ [])
            (AllBelow-mono i (i + 1) (indices h.older) (omega arith) h.below) (omega arith, tt)) in
      let all_files : get_all_files disk ≡ indices (h.older ++ last) =
        h.files ∙ sym (indices-append h.older last) in
      (
        record {
          older = h.older ++ last;
          newest = [];
          log_is =
              h.log_is
              ∙ sym (
                  append-nil _
                  ∙ entries_of-append h.older last
                  ∙ ap (λ z. entries_of h.older ++ z) (append-nil h.newest));
          files =
              ap (insert_sorted (i + 1)) all_files
              ∙ insert_sorted-last (i + 1) (indices (h.older ++ last)) below;
          logged =
              AllLogged-frame c fault disk (rotated disk wal) (i + 1) (h.older ++ last) below
                (λ j lt. other_file disk wal j (ne_of_lt j (i + 1) lt))
                (AllLogged-append c fault disk h.older last h.logged (h.current, tt));
          current = record {
            tail = wal.file_size;
            bytes = new_file disk wal;
            readable = r;
            opens = good;
            entries = tt;
          };
          cursor = refl;
          capacity = omega arith;
          below = below;
          above =
              λ j lt. other_file disk wal j (ne_of_gt j (i + 1) lt) ∙ h.above j (omega (arith, lt));
          index = inr refl;
        },
        refl,
        refl,
      )
    where
      ne_of_lt : (a b : ℕ) → a < b → (a == b) ≡ false
      ne_of_lt a b lt = ground arith

      ne_of_gt : (a b : ℕ) → b < a → (a == b) ≡ false
      ne_of_gt a b lt = ground arith
