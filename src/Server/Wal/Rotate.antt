-- ===== src/Server/Wal/Rotate.antt =====
-- Wal::rotate and Wal::write_entry of src/server/wal.rs on a log that is open at its end.
use mathlib.Core.Path.{subst}
use cixrs.Base.{
  ℕ, suc, ◌+◌, ◌-◌, ◌≤◌, ◌<◌, ◌≡◌, refl, sym, ap, ◌∙◌, ◌⊎◌, inl, inr, true, false, Option, none,
  some, List, [], ◌∷◌, ◌++◌, length, replicate, arith, Bool-cases, leb, success, failure,
  Option-cases,
}
use cixrs.Run.{ok, Returns, returns}
use cixrs.Server.Messages.{EngineMessage}
use cixrs.Server.Wal.{
  Codec, WalError, files_too_small, Disk, contents, Wal, create, next_file, rotate, retry,
  write_entry, last_result, is_null_message, turns,
}
use cixrs.Server.Wal.File.{IsCodec, IsReadable}
use cixrs.Server.Wal.Write.{
  IsLog, EndsWell, write_fits, write_full, appended, rotated, fresh_wal, rotated-IsLog,
}

module _ (codec : Codec) (fault : ℕ → Option WalError) where
  create-ok :
      (disk : Disk) (j size : ℕ)
      → contents j disk ≡ none
      → fault j ≡ none
      → create codec fault j size disk
        ≡ ok
            (success (record { file = j; cursor = 0; capacity = size }))
            ((j, replicate size 0) ∷ disk)
  unfolding create
  create-ok disk j size h f = rw (create, h, f) refl

  create-fails :
      (disk : Disk) (j size : ℕ) (err : WalError)
      → contents j disk ≡ none
      → fault j ≡ some err
      → create codec fault j size disk ≡ ok (failure err) disk
  unfolding create
  create-fails disk j size err h f = rw (create, h, f) refl

  next_file-ok :
      (disk : Disk) (size j k : ℕ)
      → contents j disk ≡ none
      → fault j ≡ none
      → next_file codec fault (suc k) size j disk
        ≡ ok
            (success (record { file = j; cursor = 0; capacity = size }, j + 1))
            ((j, replicate size 0) ∷ disk)
  unfolding next_file
  next_file-ok disk size j k h f = rw (next_file, h, create-ok disk j size h f) refl

  next_file-fails :
      (disk : Disk) (size j k : ℕ) (err : WalError)
      → contents j disk ≡ none
      → fault j ≡ some err
      → next_file codec fault (suc k) size j disk ≡ ok (failure err) disk
  unfolding next_file
  next_file-fails disk size j k err h f = rw (next_file, h, create-fails disk j size err h f) refl

  next_file-skips :
      (disk : Disk) (size j k : ℕ) (bytes : List ℕ)
      → contents j disk ≡ some bytes
      → next_file codec fault (suc k) size j disk ≡ next_file codec fault k size (j + 1) disk
  unfolding next_file
  next_file-skips disk size j k bytes h = rw (next_file, h) refl

  -- From the file `i`, or from the one after it, the search comes to the one after it.
  next_file-after :
      (disk : Disk) (size i index n : ℕ) (bytes : List ℕ)
      → contents i disk ≡ some bytes
      → (index ≡ i) ⊎ (index ≡ i + 1)
      → (k : ℕ) × (next_file codec fault (suc (suc n)) size index disk
          ≡ next_file codec fault (suc k) size (i + 1) disk)
  next_file-after disk size i index n bytes h (inl e) = (
    n,
    ap (λ z. next_file codec fault (suc (suc n)) size z disk) e
        ∙ next_file-skips disk size i (suc n) bytes h,
  )
  next_file-after disk size i index n bytes h (inr e) =
      (suc n, ap (λ z. next_file codec fault (suc (suc n)) size z disk) e)

  some_file :
      (i : ℕ) (disk : Disk) (bytes : List ℕ)
      → contents i disk ≡ some bytes
      → (n : ℕ) × (turns disk ≡ suc (suc n))
  unfolding contents
  some_file i [] bytes h = absurd (cc)
  some_file i (f ∷ fs) bytes h = (length fs, omega arith)

module _ {codec : Codec} (c : IsCodec codec) (fault : ℕ → Option WalError) where
  module _ (disk : Disk) (wal : Wal) (log : List EngineMessage)
      (h : IsLog c fault disk wal log) where
    searched :
        (k : ℕ) × (next_file codec fault (turns disk) wal.file_size wal.index disk
          ≡ next_file codec fault (suc k) wal.file_size (wal.wal.file + 1) disk)
    searched =
        let (n, e) = some_file codec fault wal.wal.file disk _ h.current.bytes in
        let (k, f) =
          next_file-after codec fault disk wal.file_size wal.wal.file wal.index n _ h.current.bytes
            h.index in
        (k, ap (λ z. next_file codec fault z wal.file_size wal.index disk) e ∙ f)

    free : contents (wal.wal.file + 1) disk ≡ none
    free = h.above (wal.wal.file + 1) (omega arith)

    rotate-ok :
        fault (wal.wal.file + 1) ≡ none
        → rotate codec fault wal disk
          ≡ ok (fresh_wal c fault wal, success tt) (rotated c fault disk wal)
    unfolding rotate
    rotate-ok f =
        rw
          (searched.1
            ∙ next_file-ok codec fault disk wal.file_size (wal.wal.file + 1) searched.0 free f)
          refl

    rotate-fails :
        (err : WalError)
        → fault (wal.wal.file + 1) ≡ some err
        → rotate codec fault wal disk ≡ ok (wal, failure err) disk
    unfolding rotate
    rotate-fails err f =
        rw
          (searched.1
            ∙ next_file-fails codec fault disk wal.file_size (wal.wal.file + 1) searched.0 err free
                f)
          refl

  -- Writing an entry to a log that is open at the end of its last file returns, and leaves a log that
  -- is open at the end of its last file, whatever happens. On success the log has grown by the entry.
  -- On a failure it is as before, and the entry neither fits the open file nor, unless the next file
  -- does not open, a new one.
  -- The conditions are that the entry, if it fits, leaves no bytes of the open file and of a new file
  -- or at least four (EndsWell), and that a new file has no bytes or at least four.
  pub write_entry-IsLog :
      (disk : Disk) (wal : Wal) (log : List EngineMessage) (e : EngineMessage)
      → (h : IsLog c fault disk wal log) → is_null_message e ≡ false
      → EndsWell c fault h.current.tail e
      → EndsWell c fault wal.file_size e
      → IsReadable wal.file_size
      → Returns
          (λ (wal', r) disk'.
            ((r ≡ success tt) × IsLog c fault disk' wal' (log ++ (e ∷ [])))
            ⊎ ((err : WalError) × (r ≡ failure err)
                × IsLog c fault disk' wal' log
                × (h.current.tail < length (c.encode e))
                × ((wal.file_size < length (c.encode e)) ⊎ (fault (wal.wal.file + 1) ≡ some err))))
          (write_entry codec fault wal e disk)
  unfolding write_entry retry last_result
  write_entry-IsLog disk wal log e h real here there readable =
      elim (Bool-cases (leb (length (c.encode e)) h.current.tail)) [
        | inl fits ↦
            (let le = le_of fits in
              rw
                (write_fits c fault disk wal.wal h.newest e h.current.tail h.current.bytes h.cursor
                  h.capacity le)
                (returns (inl (refl, appended c fault disk wal log e h real (here le) le))))
        | inr full ↦
            (let first = write_full c fault disk wal.wal e h.current.tail h.capacity (lt_of full) in
              elim (Option-cases (fault (wal.wal.file + 1))) [
                | inr (err, f) ↦
                    rw (first, rotate-fails disk wal log h err f)
                      (returns (inr (err, refl, h, lt_of full, inr f)))
                | inl f ↦
                    (let (h', _, size) = rotated-IsLog c fault disk wal log h readable f in
                      elim (Bool-cases (leb (length (c.encode e)) wal.file_size)) [
                        | inl fits ↦
                            (let le = le_of fits in
                              rw
                                (
                                  first,
                                  rotate-ok disk wal log h f,
                                  write_fits c fault (rotated c fault disk wal)
                                      (fresh_wal c fault wal).wal h'.newest e h'.current.tail
                                      h'.current.bytes h'.cursor h'.capacity
                                      (omega (arith, le, size)),
                                )
                                (returns (
                                  inl (
                                    refl,
                                    appended c fault (rotated c fault disk wal)
                                        (fresh_wal c fault wal) log e h' real
                                        (subst (λ z. IsReadable (z - length (c.encode e)))
                                          (sym size) (there le))
                                        (omega (arith, le, size)),
                                  ))))
                        | inr over ↦
                            rw
                              (
                                first,
                                rotate-ok disk wal log h f,
                                write_full c fault (rotated c fault disk wal)
                                    (fresh_wal c fault wal).wal e h'.current.tail h'.capacity
                                    (omega (arith, lt_of over, size)),
                              )
                              (returns
                                (inr (files_too_small, refl, h', lt_of full, inl (lt_of over))))
                      ])
              ])
      ]
    where
      le_of : {a b : ℕ} → leb a b ≡ true → a ≤ b
      le_of q = ground arith

      lt_of : {a b : ℕ} → leb a b ≡ false → b < a
      lt_of q = ground arith
