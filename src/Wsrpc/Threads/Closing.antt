-- ===== src/Wsrpc/Threads/Closing.antt =====
-- What a Close leaves, whatever Read and Write are doing.
use arigo.Base.{ℕ, ◌+◌, ◌≡◌, refl, ap, ◌∙◌, Bool, false, Option, List, [], ◌∷◌, arith}
use arigo.Wsrpc.{closed}
use arigo.Wsrpc.Threads.{
  Fields, Threads, start, Reading, Writing, Writers, ReadAct, WriteAct, reader_stored,
  reader_forgotten, writer_stored, writer_forgotten, Picks, first, later, bit, Act, read_moves,
  write_moves, close_takes, close_ends, close_fails, close_returns, Acts, here, next,
}

-- Where the connection is gone, nothing is kept.
abbrev pub IsShut : Fields → Type 0
IsShut c = c.ws ≡ false → c ≡ closed

ReadAct-IsShut : {c d : Fields} {a b : Reading} → ReadAct c a d b → IsShut c → IsShut d
ReadAct-IsShut (reader_stored h) shut gone = cc
ReadAct-IsShut (reader_forgotten h) shut gone =
    let bare = ap (λ (c : Fields). c.r) (shut gone) in cc
ReadAct-IsShut _ shut gone = shut gone

WriteAct-IsShut :
    {c d : Fields} {a b : Writing} {v u : Writers} → WriteAct c v a d b u → IsShut c → IsShut d
WriteAct-IsShut (writer_stored h) shut gone = cc
WriteAct-IsShut (writer_forgotten h) shut gone =
    let bare = ap (λ (c : Fields). c.w) (shut gone) in cc
WriteAct-IsShut _ shut gone = shut gone

-- Neither Read nor Write takes the connection or puts it back.
pub ReadAct-kept : {c d : Fields} {a b : Reading} → ReadAct c a d b → (d.ws ≡ c.ws) × (d.w ≡ c.w)
ReadAct-kept (reader_stored h) = (refl, refl)
ReadAct-kept _ = (refl, refl)

WriteAct-ws : {c d : Fields} {a b : Writing} {v u : Writers} → WriteAct c v a d b u → d.ws ≡ c.ws
WriteAct-ws (writer_stored h) = refl
WriteAct-ws _ = refl

Act-IsShut : {s t : Threads} → Act s t → IsShut s.rwc → IsShut t.rwc
Act-IsShut (read_moves c b act e) shut = rw e (ReadAct-IsShut act shut)
Act-IsShut (write_moves c b v act e) shut = rw e (WriteAct-IsShut act shut)
Act-IsShut (close_takes e) shut = rw e (λ q. refl)
Act-IsShut (close_ends w ws others p e) shut = rw e shut
Act-IsShut (close_fails w ws others p e) shut = rw e shut
Act-IsShut (close_returns ws others p e) shut = rw e shut

-- The connections that the Closes that run have still to close.
abbrev pub to_close : List (Option ℕ × Bool) → ℕ
to_close [] = 0
to_close ((w, ws) ∷ cs) = bit ws + to_close cs

Picks-to_close :
    {w : Option ℕ} {ws : Bool} {cs ds : List (Option ℕ × Bool)}
    → Picks (w, ws) cs ds
    → to_close cs ≡ bit ws + to_close ds
Picks-to_close first = refl
Picks-to_close (later p) = omega (arith, Picks-to_close p)

abbrev total : Threads → ℕ
total s = s.conn_closes + s.abandoned + to_close s.closing + bit s.rwc.ws

-- The one connection is there, or one Close has it, or closed it, or left it.
Act-total : {s t : Threads} → Act s t → total t ≡ total s
Act-total (read_moves c b act e) = rw e (omega (arith, ap bit (ReadAct-kept act).0))
Act-total (write_moves c b v act e) = rw e (omega (arith, ap bit (WriteAct-ws act)))
Act-total (close_takes e) = rw e (omega arith)
Act-total (close_ends w ws others p e) = rw e (omega (arith, Picks-to_close p))
Act-total (close_fails w ws others p e) = rw e (omega (arith, Picks-to_close p))
Act-total (close_returns ws others p e) = rw e (omega (arith, Picks-to_close p))

Acts-total : {s t : Threads} → Acts s t → total t ≡ total s
Acts-total here = refl
Acts-total (next run act) = Act-total act ∙ Acts-total run

pub Acts-IsShut : {s t : Threads} → Acts s t → IsShut s.rwc → IsShut t.rwc
Acts-IsShut here shut = shut
Acts-IsShut (next run act) shut = Act-IsShut act (Acts-IsShut run shut)

pub start-IsShut : IsShut start.rwc
start-IsShut gone = cc

Act-closed : {s t : Threads} → Act s t → s.rwc.ws ≡ false → t.rwc.ws ≡ false
Act-closed (read_moves c b act e) gone = rw e ((ReadAct-kept act).0 ∙ gone)
Act-closed (write_moves c b v act e) gone = rw e (WriteAct-ws act ∙ gone)
Act-closed (close_takes e) gone = rw e refl
Act-closed (close_ends w ws others p e) gone = rw e gone
Act-closed (close_fails w ws others p e) gone = rw e gone
Act-closed (close_returns ws others p e) gone = rw e gone

Acts-closed : {s t : Threads} → Acts s t → s.rwc.ws ≡ false → t.rwc.ws ≡ false
Acts-closed here gone = gone
Acts-closed (next run act) gone = Act-closed act (Acts-closed run gone)

pub Acts-append : {s t u : Threads} → Acts s t → Acts t u → Acts s u
Acts-append run here = run
Acts-append run (next more act) = next (Acts-append run more) act

-- Once a Close took the connection, whatever Read, Write and other Closes are at: the three fields
-- are nil for good, so that no reader and no writer is stored again; and exactly one of these holds,
-- once: ws.Close was called, a Close has still to call it, or a Close returned before it, since it
-- could not end the writer that it took.
pub closed_for_good :
    (s t : Threads)
    → Acts start s
    → s.rwc.ws ≡ false
    → Acts s t
    → (t.rwc ≡ closed) × (t.conn_closes + t.abandoned + to_close t.closing ≡ 1)
closed_for_good s t run gone more =
    let all = Acts-append run more in
    let gone' = Acts-closed more gone in
    (Acts-IsShut all start-IsShut gone', omega (arith, Acts-total all, ap bit gone'))
