-- ===== src/Server/Wal/Tests.antt =====
-- Examples of src/server/wal.rs.
use cixrs.Base.{
  ◌<◌, ◌≡◌, refl, ◌⊎◌, inl, inr, true, none, some, [], ◌∷◌, ◌++◌, replicate, arith, success,
  failure,
}
use cixrs.Run.{Returns, panic, out_of_fuel, ok}
use cixrs.Server.Wal.{WalError, Disk, Wal, contents, get_all_files, new, write_entry}
use cixrs.Server.Wal.Reader.{replay}
use cixrs.Server.Wal.Replay.{Logs, AllLogged, replay-logged}
use cixrs.Server.Wal.Write.{IsLog}
use cixrs.Server.Wal.Rotate.{write_entry-IsLog}
use cixrs.Server.Wal.Resume.{restart-IsLog}
use cixrs.Server.Wal.Short.{restart-short}
use cixrs.Server.Wal.Cells.{
  cells, cell_codec, is_cell_codec, no_fault, one, twelve, at_one, one-IsLog, two,
}

write_entry-IsLog_example :
    Returns
      (λ (wal', r) disk'.
        ((r ≡ success tt) × IsLog is_cell_codec no_fault disk' wal' (one ∷ two ∷ []))
        ⊎ ((err : WalError) × (r ≡ failure err)
            × IsLog is_cell_codec no_fault disk' wal' (one ∷ [])
            × (7 < 12)
            × ((12 < 12) ⊎ (no_fault 3 ≡ some err))))
      (write_entry cell_codec no_fault at_one two twelve)
unfolding one-IsLog
write_entry-IsLog_example =
    write_entry-IsLog is_cell_codec no_fault twelve at_one (one ∷ []) two one-IsLog refl
      (λ h. absurd (omega (arith, h))) (λ _. inl refl) (inr (omega arith))

restart-IsLog_example :
    (replay cell_codec no_fault 2
        (record { files = get_all_files twelve; file_index = 0; reader = none })
        twelve
      ≡ ok (one ∷ []) twelve)
    × Returns
        (λ r disk'.
          (wal' : Wal) × (r ≡ success wal')
          × (disk' ≡ twelve)
          × (wal'.file_size ≡ 16)
          × IsLog is_cell_codec no_fault twelve wal' (one ∷ []))
        (new cell_codec no_fault 2 true 16 twelve)
restart-IsLog_example =
    restart-IsLog is_cell_codec no_fault twelve at_one (one ∷ []) 16 2 one-IsLog (omega arith)

abbrev two_files : Disk
two_files = (4, cells two ++ replicate 4 0) ∷ twelve

abbrev two_logs : Logs
two_logs = (2, one ∷ []) ∷ (4, two ∷ []) ∷ []

two-AllLogged : AllLogged is_cell_codec no_fault two_files two_logs
unfolding contents
two-AllLogged = (
  record {
    tail = 7;
    bytes = refl;
    readable = inr (omega arith);
    opens = refl;
    entries = (refl, tt);
  },
  (
    record {
      tail = 4;
      bytes = refl;
      readable = inr (omega arith);
      opens = refl;
      entries = (refl, tt);
    },
    tt,
  ),
)

replay-logged_example :
    replay cell_codec no_fault 3
      (record { files = get_all_files two_files; file_index = 0; reader = none })
      two_files
    ≡ ok (one ∷ two ∷ []) two_files
unfolding get_all_files
replay-logged_example =
    replay-logged is_cell_codec no_fault two_files two_logs 3 refl two-AllLogged (omega arith)

-- A file of seven cells with a message of five, after the file of twelve cells.
abbrev seven : Disk
seven = (3, cells one ++ replicate 2 0) ∷ twelve

seven-AllLogged : AllLogged is_cell_codec no_fault seven ((2, one ∷ []) ∷ [])
unfolding contents
seven-AllLogged = (
  record {
    tail = 7;
    bytes = refl;
    readable = inr (omega arith);
    opens = refl;
    entries = (refl, tt);
  },
  tt,
)

restart-short_example :
    (replay cell_codec no_fault 9
        (record { files = get_all_files seven; file_index = 0; reader = none })
        seven
      ≡ panic)
    × (new cell_codec no_fault 9 true 64 seven ≡ out_of_fuel)
unfolding get_all_files contents
restart-short_example =
    restart-short is_cell_codec no_fault seven ((2, one ∷ []) ∷ []) 3 (one ∷ []) 2 64 9 refl
      seven-AllLogged refl refl (refl, tt) (omega arith) (omega arith) (omega arith)
