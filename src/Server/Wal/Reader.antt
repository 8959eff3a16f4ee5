-- ===== src/Server/Wal/Reader.antt =====
-- WalDirectoryReader of src/server/wal.rs and the loop of init_wal in src/server/server.rs over it.
use cixrs.Base.{
  ℕ, zero, suc, ◌+◌, Option, none, some, List, [], ◌∷◌, length, get_elem?, Result, success, failure,
}
use cixrs.Run.{Cmd, ok, out_of_fuel, pure, panics, ◌>>=◌}
use cixrs.Server.Messages.{EngineMessage}
use cixrs.Server.Wal.{Codec, WalError, Disk, WalFile, get_all_files, open_file, advance_entry}

pub record WalDirectoryReader : Type 0 where
  pub files : List ℕ
  pub file_index : ℕ
  pub reader : Option WalFile

module _ (codec : Codec) (fault : ℕ → Option WalError) where
  -- WalDirectoryReader::new
  unfoldable pub new_reader : Cmd Disk WalDirectoryReader
  unfolding get_all_files
  new_reader disk = ok (record { files = get_all_files disk; file_index = 0; reader = none }) disk

  -- the next entry of the open file, if one is open
  unfoldable pub read_open :
      Option WalFile → Cmd Disk (Option WalFile × Option (Result WalError EngineMessage))
  unfolding advance_entry
  read_open none = pure (none, none)
  read_open (some w) = do r ← advance_entry codec fault w; pure (some r.0, r.1)

  -- the file that is opened for the next turn; `again` is the rest of the loop
  unfoldable pub after_open :
      (WalDirectoryReader → Cmd Disk (WalDirectoryReader × Option (Result WalError EngineMessage)))
      → WalDirectoryReader
      → Result WalError WalFile
      → Cmd Disk (WalDirectoryReader × Option (Result WalError EngineMessage))
  after_open again r (failure err) = pure (r, some (failure err))
  after_open again r (success w) =
      again (record r { reader = some w; file_index = r.file_index + 1 })

  unfoldable pub open_next :
      (WalDirectoryReader → Cmd Disk (WalDirectoryReader × Option (Result WalError EngineMessage)))
      → WalDirectoryReader
      → Option ℕ
      → Cmd Disk (WalDirectoryReader × Option (Result WalError EngineMessage))
  unfolding open_file after_open
  open_next again r none = pure (r, none)
  open_next again r (some i) = open_file codec fault i >>= after_open again r

  -- WalDirectoryReader::next; a turn of the loop opens a file
  unfoldable pub next :
      ℕ
      → WalDirectoryReader
      → Cmd Disk (WalDirectoryReader × Option (Result WalError EngineMessage))
  unfolding read_open open_next
  next zero r = λ _. out_of_fuel
  next (suc k) r = do
    e ← read_open r.reader
    elim e.1 [
      | some msg ↦ pure (record r { reader = e.0 }, some msg)
      | none ↦ open_next (next k) (record r { reader = e.0 }) (get_elem? r.files r.file_index)
    ]

  -- The loop of init_wal in src/server/server.rs over the reader: every message, or a panic on an error.
  -- A file of the directory opens at most once in a turn.
  unfoldable pub replay : ℕ → WalDirectoryReader → Cmd Disk (List EngineMessage)
  unfolding next
  replay zero r = λ _. out_of_fuel
  replay (suc k) r = do
    e ← next (length r.files + 1) r
    elim e.1 [
      | none ↦ pure []
      | some (failure err) ↦ panics
      | some (success msg) ↦ (do rest ← replay k e.0; pure (msg ∷ rest))
    ]
