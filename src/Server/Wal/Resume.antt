-- ===== src/Server/Wal/Resume.antt =====
-- Starting on a directory of log files: Wal::new of src/server/wal.rs and init_wal of src/server/server.rs.
use cixrs.Base.{
  ℕ, zero, suc, ◌+◌, ◌<◌, ◌≡◌, refl, sym, ap, ◌∙◌, inl, inr, true, Option, none, some, List, [],
  ◌∷◌, ◌++◌, length, length-append, replicate, arith, success,
}
use cixrs.Run.{ok, Returns, returns}
use cixrs.Server.Messages.{EngineMessage}
use cixrs.Server.Wal.{
  Codec, WalError, Disk, contents, WalFile, Wal, create, next_file, get_all_files,
}
use cixrs.Server.Wal.File.{IsCodec, IsReadable, encode_all, append-nil, length-replicate}
use cixrs.Server.Wal.Replay.{Logs, indices, indices-append, entries_of, entries_of-append}
use cixrs.Server.Wal.Disk.{AllLogged-append}
use cixrs.Server.Wal.Write.{IsLog}
use cixrs.Server.Wal.{new, resume, last_file, advance_to_end}
use cixrs.Server.Wal.Reader.{replay}
use cixrs.Server.Wal.File.{IsAt, advance_entry-next, advance_entry-end}
use cixrs.Server.Wal.Replay.{open_file-ok, opened-IsAt, replay-logged}

pub last_file-append : (xs : List ℕ) (i : ℕ) → last_file (xs ++ (i ∷ [])) ≡ some i
last_file-append [] i = refl
last_file-append (x ∷ xs) i = rw (last_file-append xs i) refl

module _ {codec : Codec} (c : IsCodec codec) (fault : ℕ → Option WalError) where
  advance_to_end-IsAt :
      (disk : Disk) (k : ℕ) (w : WalFile) (ms : List EngineMessage) (tail : ℕ)
      → IsAt c fault disk w ms tail
      → IsReadable tail
      → length ms < k
      → advance_to_end codec fault k w disk
        ≡ ok (record w { cursor = w.cursor + length (encode_all c ms) }) disk
  unfolding advance_to_end
  advance_to_end-IsAt disk zero w ms tail h r lt = absurd (omega (arith, lt))
  advance_to_end-IsAt disk (suc k) w [] tail h r lt =
      rw (advance_entry-end c fault disk w tail h r)
        (ap (λ n. ok (record w { cursor = n }) disk) (omega arith))
  advance_to_end-IsAt disk (suc k) w (m ∷ ms) tail h r lt =
      let (w', e, h', is) = advance_entry-next c fault disk w m ms tail h in
      rw (e, advance_to_end-IsAt disk k w' ms tail h' r (omega (arith, lt)), is)
        (ap (λ n. ok (record w { cursor = n }) disk)
          (omega (arith, length-append (c.encode m) (encode_all c ms))))

  -- Starting again on the directory of a log that was open at its end, whatever became of the process
  -- that wrote it: a new reader yields exactly the entries of the log in the order in which they were
  -- written, and the log that is then opened is the same log, open at its end, on the same directory.
  pub restart-IsLog :
      (disk : Disk) (wal : Wal) (log : List EngineMessage) (size k : ℕ)
      → IsLog c fault disk wal log
      → length log < k
      → (replay codec fault k
            (record { files = get_all_files disk; file_index = 0; reader = none })
            disk
          ≡ ok log disk)
        × Returns
            (λ r disk'.
              (wal' : Wal) × (r ≡ success wal')
              × (disk' ≡ disk)
              × (wal'.file_size ≡ size)
              × IsLog c fault disk wal' log)
            (new codec fault k true size disk)
  unfolding new resume
  restart-IsLog disk wal log size k h lt =
      let i = wal.wal.file in
      let last : Logs = (i, h.newest) ∷ [] in
      let is_log : entries_of (h.older ++ last) ≡ log =
        entries_of-append h.older last
        ∙ ap (λ z. entries_of h.older ++ z) (append-nil h.newest)
        ∙ sym h.log_is in
      let opened = opened-IsAt c fault disk i h.newest h.current in
      let newest_short : length h.newest < k =
        omega (arith, lt, ap length h.log_is, length-append (entries_of h.older) h.newest) in
      (
        (replay-logged c fault disk (h.older ++ last) k
              (h.files ∙ sym (indices-append h.older last))
              (AllLogged-append c fault disk h.older last h.logged (h.current, tt))
              (omega (arith, lt, ap length is_log))
            ∙ ap (λ z. ok z disk) is_log),
        (rw
            (
              h.files,
              last_file-append (indices h.older) i,
              open_file-ok c fault disk i h.newest h.current,
              advance_to_end-IsAt disk k _ h.newest h.current.tail opened h.current.readable
                  newest_short,
            )
            (returns (
              _,
              refl,
              refl,
              refl,
              record {
                older = h.older;
                newest = h.newest;
                log_is = h.log_is;
                files = h.files;
                logged = h.logged;
                current = h.current;
                cursor = omega arith;
                capacity = omega (
                  arith,
                  length-append (encode_all c h.newest) (replicate h.current.tail 0),
                  length-replicate {A = ℕ} h.current.tail 0,
                );
                below = h.below;
                above = h.above;
                index = inl refl;
              },
            ))),
      )

  -- On an empty directory a new log starts with the file wal_0, if it opens, and holds nothing.
  pub new-empty :
      (size k : ℕ)
      → IsReadable size
      → fault 0 ≡ none
      → Returns
          (λ r disk'.
            (wal' : Wal) × (r ≡ success wal')
            × (wal'.file_size ≡ size)
            × IsLog c fault disk' wal' [])
          (new codec fault k true size [])
  unfolding new resume next_file create get_all_files contents
  new-empty size k readable f =
      rw (new, next_file, create, f)
        (returns (
          _,
          refl,
          refl,
          record {
            older = [];
            newest = [];
            log_is = refl;
            files = refl;
            logged = tt;
            current = record {
              tail = size;
              bytes = refl;
              readable = readable;
              opens = f;
              entries = tt;
            };
            cursor = refl;
            capacity = omega arith;
            below = tt;
            above = λ j lt. later j lt;
            index = inr refl;
          },
        ))
    where
      later : (j : ℕ) → 0 < j → contents j ((0, replicate size 0) ∷ []) ≡ none
      later j lt = ground arith
