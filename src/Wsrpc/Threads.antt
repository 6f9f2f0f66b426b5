-- ===== src/Wsrpc/Threads.antt =====
-- Read, Write and Close of rwc.go at the same time: each takes the lock for a few lines and lets it
-- go while the connection works, so that another may run in between. One goroutine reads and one
-- writes, as rpc2 does, and any number of them call Close. A reader and a writer of gorilla/websocket
-- are their numbers here, and whether their calls fail is left open.
pub mod Closing
pub mod Owners
pub mod Leaks
pub mod Runs
pub mod ReadRuns
pub mod WriteRuns
pub mod Sequential
use arigo.Base.{ℕ, zero, suc, ◌+◌, ◌≡◌, ◌≢◌, Bool, true, false, Option, none, some, List, [], ◌∷◌}
use arigo.Wsrpc.{ReadWriteCloser, new_read_write_closer, closed}

-- The struct, with the numbers of its reader and its writer.
abbrev pub Fields : Type 0
Fields = ReadWriteCloser ℕ ℕ

-- Where a Read is: it waits for NextReader, has a reader that is not stored yet, runs its loop, or
-- met the end of the message.
pub data Reading : Type 0 where
  no_read asks_reader : Reading
  has_reader reads met_eof : ℕ → Reading

-- Where a Write is: it waits for NextWriter, has a writer that is not stored yet, runs its loop, has
-- everything written, has called Close of the writer, or found the connection gone.
pub data Writing : Type 0 where
  no_write asks_writer : Writing
  has_writer writes wrote_all has_ended gives_up : ℕ → Writing

-- The writers that the connection opened, by their number, and those whose Close was called.
pub record Writers : Type 0 where
  pub opened : ℕ
  pub ended : List ℕ

-- `closing` has, of each Close that runs, what it took under the lock: the writer that it has still to
-- end, and whether the connection was there. `conn_closes` counts the calls of ws.Close, and
-- `abandoned` the Closes that had the connection and returned before they came to it.
pub record Threads : Type 0 where
  pub rwc : Fields
  pub reading : Reading
  pub writing : Writing
  pub writers : Writers
  pub closing : List (Option ℕ × Bool)
  pub conn_closes : ℕ
  pub abandoned : ℕ

abbrev pub start : Threads
start = record {
  rwc = new_read_write_closer;
  reading = no_read;
  writing = no_write;
  writers = record { opened = 0; ended = [] };
  closing = [];
  conn_closes = 0;
  abandoned = 0;
}

abbrev pub end_writer : ℕ → Writers → Writers
end_writer w v = record v { ended = w ∷ v.ended }

-- The lines of Read that run under the lock, and what the connection does for it.
pub data ReadAct (c : Fields) : Reading → Fields → Reading → Type 0 where
  read_refused : c.ws ≡ false → ReadAct c no_read c no_read
  read_goes_on : {r : ℕ} → c.ws ≡ true → c.r ≡ some r → ReadAct c no_read c (reads r)
  read_asks : c.ws ≡ true → c.r ≡ none → ReadAct c no_read c asks_reader
  reader_fails : ReadAct c asks_reader c no_read
  reader_comes : (r : ℕ) → ReadAct c asks_reader c (has_reader r)
  reader_refused : {r : ℕ} → c.ws ≡ false → ReadAct c (has_reader r) c no_read
  reader_stored :
      {r : ℕ} → c.ws ≡ true → ReadAct c (has_reader r) (record c { r = some r }) (reads r)
  -- The buffer is full, or the error is not EOF.
  read_returns : {r : ℕ} → ReadAct c (reads r) c no_read
  read_ends : {r : ℕ} → ReadAct c (reads r) c (met_eof r)
  reader_forgotten : {r : ℕ} → c.r ≡ some r → ReadAct c (met_eof r) (record c { r = none }) no_read
  reader_kept : {r : ℕ} → c.r ≢ some r → ReadAct c (met_eof r) c no_read

-- The same of Write.
pub data WriteAct (c : Fields) (v : Writers) : Writing → Fields → Writing → Writers → Type 0 where
  write_refused : c.ws ≡ false → WriteAct c v no_write c no_write v
  write_goes_on : {w : ℕ} → c.ws ≡ true → c.w ≡ some w → WriteAct c v no_write c (writes w) v
  write_asks : c.ws ≡ true → c.w ≡ none → WriteAct c v no_write c asks_writer v
  writer_fails : WriteAct c v asks_writer c no_write v
  writer_comes :
      WriteAct c v asks_writer c (has_writer v.opened) (record v { opened = suc v.opened })
  writer_refused : {w : ℕ} → c.ws ≡ false → WriteAct c v (has_writer w) c (gives_up w) v
  writer_given_up : {w : ℕ} → WriteAct c v (gives_up w) c no_write (end_writer w v)
  writer_stored :
      {w : ℕ} → c.ws ≡ true → WriteAct c v (has_writer w) (record c { w = some w }) (writes w) v
  -- The writer failed: the loop breaks, and nothing else is done.
  write_breaks : {w : ℕ} → WriteAct c v (writes w) c no_write v
  write_completes : {w : ℕ} → WriteAct c v (writes w) c (wrote_all w) v
  writer_ends : {w : ℕ} → WriteAct c v (wrote_all w) c (has_ended w) (end_writer w v)
  writer_forgotten :
      {w : ℕ} → c.w ≡ some w → WriteAct c v (has_ended w) (record c { w = none }) no_write v
  writer_kept : {w : ℕ} → c.w ≢ some w → WriteAct c v (has_ended w) c no_write v

-- An entry of a list, and the others.
pub data Picks {A : Type 0} (x : A) : List A → List A → Type 0 where
  first : {xs : List A} → Picks x (x ∷ xs) xs
  later : {y : A} {xs ys : List A} → Picks x xs ys → Picks x (y ∷ xs) (y ∷ ys)

abbrev pub bit : Bool → ℕ
bit true = 1
bit false = 0

-- One of them moves. A Close takes all fields at once, ends the writer that it took, and closes the
-- connection that it took; it returns where the writer cannot be ended.
pub data Act (s t : Threads) : Type 0 where
  read_moves :
      (c : Fields) (reading : Reading)
      → ReadAct s.rwc s.reading c reading
      → t ≡ record s { rwc = c; reading = reading }
      → Act s t
  write_moves :
      (c : Fields) (writing : Writing) (v : Writers)
      → WriteAct s.rwc s.writers s.writing c writing v
      → t ≡ record s { rwc = c; writing = writing; writers = v }
      → Act s t
  close_takes : t ≡ record s { rwc = closed; closing = (s.rwc.w, s.rwc.ws) ∷ s.closing } → Act s t
  close_ends :
      (w : ℕ) (ws : Bool) (others : List (Option ℕ × Bool))
      → Picks (some w, ws) s.closing others
      → t ≡ record s { closing = (none, ws) ∷ others; writers = end_writer w s.writers }
      → Act s t
  close_fails :
      (w : ℕ) (ws : Bool) (others : List (Option ℕ × Bool))
      → Picks (some w, ws) s.closing others
      → t ≡ record s {
        closing = others;
        writers = end_writer w s.writers;
        abandoned = bit ws + s.abandoned;
      }
      → Act s t
  close_returns :
      (ws : Bool) (others : List (Option ℕ × Bool))
      → Picks (none, ws) s.closing others
      → t ≡ record s { closing = others; conn_closes = bit ws + s.conn_closes }
      → Act s t

pub data Acts (s : Threads) : Threads → Type 0 where
  here : Acts s s
  next : {t u : Threads} → Acts s t → Act t u → Acts s u
