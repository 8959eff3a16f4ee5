-- ===== src/Server/Wal/File.antt =====
-- One file of the log in src/server/wal.rs: entries one after the other, then zeros.
use cixrs.Base.{
  ℕ, zero, suc, ◌+◌, ◌-◌, ◌≤◌, ◌<◌, ◌≡◌, refl, sym, ap, ◌∙◌, ◌⊎◌, inl, inr, true, false, Option,
  none, some, List, [], ◌∷◌, ◌++◌, length, length-append, take, replicate, arith, ◌==◌, success,
  failure,
}
use cixrs.Run.{ok}
use cixrs.Server.Messages.{EngineMessage, null_message}
use cixrs.Server.OpenOrders.{drop}
use cixrs.Server.Wal.{
  Codec, WalError, invalid_read, Disk, contents, WalFile, advance_entry, entry_read,
  is_null_message,
}

-- The documented behaviour of bincode that the log relies on: a message is its encoding whenever it fits
-- the bound, is read back from the start of a slice whatever follows, and begins with the four bytes of
-- its variant's number, 0 for the first.
pub record IsCodec (codec : Codec) : Type 0 where
  pub encode : EngineMessage → List ℕ
  pub fits :
      (m : EngineMessage) (n : ℕ) → length (encode m) ≤ n → codec.serialize m n ≡ success (encode m)
  pub too_long :
      (m : EngineMessage) (n : ℕ) → n < length (encode m) → codec.serialize m n ≡ failure tt
  pub size : (m : EngineMessage) → codec.serialized_size m ≡ length (encode m)
  pub tag : (m : EngineMessage) → 4 ≤ length (encode m)
  pub prefix :
      (m : EngineMessage) (rest : List ℕ) → codec.deserialize (encode m ++ rest) ≡ success m
  pub zeros : (n : ℕ) → 4 ≤ n → codec.deserialize (replicate n 0) ≡ success null_message
  pub short : (n : ℕ) → n < 4 → codec.deserialize (replicate n 0) ≡ failure tt

module _ {A : Type 0} where
  pub append_regroup : (xs ys zs : List A) → (xs ++ ys) ++ zs ≡ xs ++ (ys ++ zs)
  append_regroup [] ys zs = refl
  append_regroup (x ∷ xs) ys zs = ap (◌∷◌ x) (append_regroup xs ys zs)

  pub append-nil : (xs : List A) → xs ++ [] ≡ xs
  append-nil [] = refl
  append-nil (x ∷ xs) = ap (◌∷◌ x) (append-nil xs)

  pub drop-append : (n : ℕ) (xs ys : List A) → n ≡ length xs → drop n (xs ++ ys) ≡ ys
  drop-append zero [] ys h = refl
  drop-append zero (x ∷ xs) ys h = absurd (omega (arith, h))
  drop-append (suc n) [] ys h = absurd (omega (arith, h))
  drop-append (suc n) (x ∷ xs) ys h = drop-append n xs ys (omega (arith, h))

  pub take-append : (n : ℕ) (xs ys : List A) → n ≡ length xs → take n (xs ++ ys) ≡ xs
  take-append zero [] ys h = refl
  take-append zero (x ∷ xs) ys h = absurd (omega (arith, h))
  take-append (suc n) [] ys h = absurd (omega (arith, h))
  take-append (suc n) (x ∷ xs) ys h = ap (◌∷◌ x) (take-append n xs ys (omega (arith, h)))

  pub length-replicate : (n : ℕ) (a : A) → length (replicate n a) ≡ n
  length-replicate zero a = refl
  length-replicate (suc n) a = ap suc (length-replicate n a)

  pub drop-replicate : (n k : ℕ) (a : A) → drop n (replicate k a) ≡ replicate (k - n) a
  drop-replicate zero k a = let e : k ≡ k - 0 = omega arith in ap (λ z. replicate z a) e
  drop-replicate (suc n) zero a = let e : 0 ≡ 0 - suc n = omega arith in ap (λ z. replicate z a) e
  drop-replicate (suc n) (suc k) a =
      let e : k - n ≡ suc k - suc n = omega arith in
      drop-replicate n k a ∙ ap (λ z. replicate z a) e

  drop-nil : (k : ℕ) → ◌≡◌ {A = List A} (drop k []) []
  drop-nil zero = refl
  drop-nil (suc k) = refl

  drop-drop : (n m : ℕ) (xs : List A) → drop (n + m) xs ≡ drop m (drop n xs)
  drop-drop zero m xs = let e : 0 + m ≡ m = omega arith in ap (λ z. drop z xs) e
  drop-drop (suc n) m [] = drop-nil (suc n + m) ∙ sym (drop-nil m)
  drop-drop (suc n) m (x ∷ xs) =
      let e : suc n + m ≡ suc (n + m) = omega arith in
      ap (λ z. drop z (x ∷ xs)) e ∙ drop-drop n m xs

  -- Writing over the start of what follows `pre`.
  pub splice-append :
      (pre new old : List A) (n : ℕ)
      → n ≡ length pre
      → take n (pre ++ old) ++ (new ++ drop (n + length new) (pre ++ old))
        ≡ pre ++ (new ++ drop (length new) old)
  splice-append pre new old n h =
      rw (take-append n pre old h, drop-drop n (length new) (pre ++ old), drop-append n pre old h)
        refl

-- The end of a file that reading takes for the end of the log: nothing, or room for a variant's number.
abbrev pub IsReadable : ℕ → Type 0
IsReadable k = (k ≡ 0) ⊎ (4 ≤ k)

module _ {codec : Codec} (c : IsCodec codec) where
  abbrev pub encode_all : List EngineMessage → List ℕ
  encode_all [] = []
  encode_all (m ∷ ms) = c.encode m ++ encode_all ms

  pub encode_all-append :
      (ms ns : List EngineMessage) → encode_all (ms ++ ns) ≡ encode_all ms ++ encode_all ns
  encode_all-append [] ns = refl
  encode_all-append (m ∷ ms) ns =
      ap (λ z. c.encode m ++ z) (encode_all-append ms ns)
      ∙ sym (append_regroup (c.encode m) (encode_all ms) (encode_all ns))

-- No message marks the end of the log.
abbrev pub AllEntries : List EngineMessage → Type 0
AllEntries [] = Unit {0}
AllEntries (m ∷ ms) = (is_null_message m ≡ false) × AllEntries ms

module _ {codec : Codec} (c : IsCodec codec) (fault : ℕ → Option WalError) where
  -- The open file `w` has read `pre`, and then holds the entries `ms` and `k` zeros.
  pub record IsAt (disk : Disk) (w : WalFile) (ms : List EngineMessage) (k : ℕ) : Type 0 where
    pub pre : List ℕ
    pub bytes : contents w.file disk ≡ some (pre ++ (encode_all c ms ++ replicate k 0))
    pub cursor : w.cursor ≡ length pre
    pub capacity : w.capacity ≡ length pre + (length (encode_all c ms) + k)
    pub entries : AllEntries ms

  advance-bytes :
      (disk : Disk) (w : WalFile) (bytes : List ℕ)
      → contents w.file disk ≡ some bytes
      → w.cursor < w.capacity
      → advance_entry codec fault w disk
        ≡ ok (entry_read codec fault w (codec.deserialize (drop w.cursor bytes))) disk
  unfolding advance_entry
  advance-bytes disk w bytes h lt =
      let e : (w.cursor == w.capacity) ≡ false = ground arith in rw (advance_entry, e, h) refl

  pub advance_entry-next :
      (disk : Disk) (w : WalFile) (m : EngineMessage) (ms : List EngineMessage) (k : ℕ)
      → IsAt disk w (m ∷ ms) k
      → (w' : WalFile) × (advance_entry codec fault w disk ≡ ok (w', some (success m)) disk)
        × IsAt disk w' ms k
        × (w' ≡ record w { cursor = w.cursor + length (c.encode m) })
  unfolding entry_read
  advance_entry-next disk w m ms k h =
      let rest = encode_all c ms ++ replicate k 0 in
      let grown = length-append (c.encode m) (encode_all c ms) in
      let regroup = append_regroup (c.encode m) (encode_all c ms) (replicate k 0) in
      (
        record w { cursor = w.cursor + codec.serialized_size m },
        (rw
            (
              advance-bytes disk w _ h.bytes (omega (arith, h.cursor, h.capacity, grown, c.tag m)),
              drop-append w.cursor h.pre ((c.encode m ++ encode_all c ms) ++ replicate k 0)
                  h.cursor,
              regroup,
              c.prefix m rest,
              h.entries.0,
            )
            refl),
        record {
          pre = h.pre ++ c.encode m;
          bytes =
              h.bytes
              ∙ ap (λ z. some (h.pre ++ z)) regroup
              ∙ ap some (sym (append_regroup h.pre (c.encode m) rest));
          cursor = omega (arith, h.cursor, c.size m, length-append h.pre (c.encode m));
          capacity = omega (arith, h.capacity, grown, length-append h.pre (c.encode m));
          entries = h.entries.1;
        },
        ap (λ n. record w { cursor = w.cursor + n }) (c.size m),
      )

  pub advance_entry-end :
      (disk : Disk) (w : WalFile) (k : ℕ)
      → IsAt disk w [] k
      → IsReadable k
      → advance_entry codec fault w disk ≡ ok (w, none) disk
  unfolding advance_entry entry_read
  advance_entry-end disk w k h (inl z) =
      let e : (w.cursor == w.capacity) ≡ true =
        ended w.cursor w.capacity (omega (arith, h.cursor, h.capacity, z)) in
      rw (advance_entry, e) refl
    where
      ended : (a b : ℕ) → a ≡ b → (a == b) ≡ true
      ended a b q = ground arith
  advance_entry-end disk w k h (inr four) =
      rw
        (
          advance-bytes disk w _ h.bytes (omega (arith, h.cursor, h.capacity, four)),
          drop-append w.cursor h.pre (replicate k 0) h.cursor,
          c.zeros k four,
        )
        refl

  -- A file that ends in one to three zeros fails to read there, time after time.
  pub advance_entry-short :
      (disk : Disk) (w : WalFile) (k : ℕ)
      → IsAt disk w [] k
      → 0 < k
      → k < 4
      → advance_entry codec fault w disk ≡ ok (w, some (failure (invalid_read w.cursor))) disk
  unfolding entry_read
  advance_entry-short disk w k h pos lt =
      rw
        (
          advance-bytes disk w _ h.bytes (omega (arith, h.cursor, h.capacity, pos)),
          drop-append w.cursor h.pre (replicate k 0) h.cursor,
          c.short k lt,
        )
        refl
