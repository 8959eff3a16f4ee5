-- ===== src/Server/Wal/Disk.antt =====
-- The files of a log's directory in src/server/wal.rs: storing one, and the order of their indices.
use cixrs.Base.{
  ℕ, ◌≤◌, ◌<◌, ◌≡◌, refl, ap, ◌∙◌, inl, inr, true, false, Option, some, List, [], ◌∷◌, ◌++◌, map,
  arith, Bool-cases, ◌==◌, ==_iff, leb,
}
use cixrs.Server.Wal.{Codec, WalError, Disk, contents, store, get_all_files, insert_sorted, sort}
use cixrs.Server.Wal.File.{IsCodec}
use cixrs.Server.Wal.Replay.{Logs, AllLogged, indices}

pub contents-store :
    (i : ℕ) (new old : List ℕ) (disk : Disk)
    → contents i disk ≡ some old
    → contents i (store i new disk) ≡ some new
unfolding contents store
contents-store i new old [] h = absurd (cc)
contents-store i new old (f ∷ fs) h = elim (Bool-cases (i == f.0)) [
  | inl e ↦ (let self : (i == i) ≡ true = (==_iff i i).1 refl in rw (e, contents, self) refl)
  | inr e ↦ rw (e, contents, e) (contents-store i new old fs (rw (contents, e) at h))
]

pub contents-store_other :
    (i j : ℕ) (new : List ℕ) (disk : Disk)
    → (j == i) ≡ false
    → contents j (store i new disk) ≡ contents j disk
unfolding contents store
contents-store_other i j new [] h = refl
contents-store_other i j new (f ∷ fs) h = ground (arith, contents-store_other i j new fs h)

keys-store :
    (i : ℕ) (new : List ℕ) (disk : Disk)
    → map (λ (f : ℕ × List ℕ). f.0) (store i new disk) ≡ map (λ (f : ℕ × List ℕ). f.0) disk
unfolding store
keys-store i new [] = refl
keys-store i new (f ∷ fs) = elim (Bool-cases (i == f.0)) [
  | inl e ↦ rw (store, e) (ap (λ z. z ∷ map (λ (f : ℕ × List ℕ). f.0) fs) ((==_iff i f.0).0 e))
  | inr e ↦ rw (store, e) (ap (◌∷◌ f.0) (keys-store i new fs))
]

-- Storing a file's bytes changes no index.
pub get_all_files-store :
    (i : ℕ) (new : List ℕ) (disk : Disk) → get_all_files (store i new disk) ≡ get_all_files disk
unfolding get_all_files
get_all_files-store i new disk = ap sort (keys-store i new disk)

-- Every index is below `n`.
abbrev pub AllBelow : ℕ → List ℕ → Type 0
AllBelow n [] = Unit {0}
AllBelow n (x ∷ xs) = (x < n) × AllBelow n xs

pub AllBelow-mono : (n m : ℕ) (xs : List ℕ) → n ≤ m → AllBelow n xs → AllBelow m xs
AllBelow-mono n m [] h k = tt
AllBelow-mono n m (x ∷ xs) h k = (omega (arith, h, k.0), AllBelow-mono n m xs h k.1)

pub AllBelow-append :
    (n : ℕ) (xs ys : List ℕ) → AllBelow n xs → AllBelow n ys → AllBelow n (xs ++ ys)
AllBelow-append n [] ys h k = k
AllBelow-append n (x ∷ xs) ys h k = (h.0, AllBelow-append n xs ys h.1 k)

pub insert_sorted-last : (n : ℕ) (xs : List ℕ) → AllBelow n xs → insert_sorted n xs ≡ xs ++ (n ∷ [])
insert_sorted-last n [] h = refl
insert_sorted-last n (x ∷ xs) h =
    let e : leb n x ≡ false = ground (arith, h.0) in rw e (ap (◌∷◌ x) (insert_sorted-last n xs h.1))

module _ {codec : Codec} (c : IsCodec codec) (fault : ℕ → Option WalError) where
  -- Files whose indices are below `n` are as before where the disk changed from `n` on.
  pub AllLogged-frame :
      (disk disk' : Disk) (n : ℕ) (fs : Logs)
      → AllBelow n (indices fs)
      → ((j : ℕ) → j < n → contents j disk' ≡ contents j disk)
      → AllLogged c fault disk fs
      → AllLogged c fault disk' fs
  AllLogged-frame disk disk' n [] b same l = tt
  AllLogged-frame disk disk' n (f ∷ fs) b same l = (
    record {
      tail = l.0.tail;
      bytes = same f.0 b.0 ∙ l.0.bytes;
      readable = l.0.readable;
      opens = l.0.opens;
      entries = l.0.entries;
    },
    AllLogged-frame disk disk' n fs b.1 same l.1,
  )

  pub AllLogged-append :
      (disk : Disk) (fs gs : Logs)
      → AllLogged c fault disk fs
      → AllLogged c fault disk gs
      → AllLogged c fault disk (fs ++ gs)
  AllLogged-append disk [] gs h k = k
  AllLogged-append disk (f ∷ fs) gs h k = (h.0, AllLogged-append disk fs gs h.1 k)
