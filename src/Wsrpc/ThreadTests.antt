-- ===== src/Wsrpc/ThreadTests.antt =====
-- A Close that runs while a Write waits for its writer, and the operations on one connection.
use mathlib.Core.List.{Memᴰ}
use arigo.Base.{
  Option, sym, ap, List, ℕ, some, true, take, drop, length, suc, zero, ◌<◌, ◌++◌, ◌+◌, ◌≡◌, refl,
  none, [], ◌∷◌, arith,
}
use arigo.Json.{GoError, eof, closed_pipe}
use arigo.Wsrpc.{WebSocket, opened, closed, read, read_loop, write, write_loop, close, close_socket}
use arigo.Wsrpc.Threads.{
  Fields, Writers, end_writer, Threads, start, no_write, asks_writer, has_writer, gives_up,
  write_asks, writer_comes, writer_refused, writer_given_up, first, write_moves, close_takes,
  close_returns, Acts, here, next,
}
use arigo.Wsrpc.Threads.Closing.{to_close, closed_for_good}
use arigo.Wsrpc.Threads.Leaks.{no_writer_leaks}
use arigo.Wsrpc.Returns.{IsMoving}
use arigo.Wsrpc.Threads.Runs.{Calls, IsCounted, idle, EndsAs, IsRead, IsWritten, IsClosed}
use arigo.Wsrpc.Threads.Sequential.{EndsIn, sequential_Acts}

abbrev taken : Threads
taken = record start {
  rwc = closed;
  writing = has_writer 0;
  writers = record { opened = 1; ended = [] };
  closing = (none, true) ∷ [];
}

-- The Write asked for a writer and got it, and then the Close took the connection.
taken-Acts : Acts start taken
taken-Acts =
    next
      (next (next here (write_moves _ asks_writer _ (write_asks refl refl) refl))
        (write_moves _ (has_writer 0) _ writer_comes refl))
      (close_takes refl)

abbrev over : Threads
over = record taken {
  writing = no_write;
  writers = record { opened = 1; ended = 0 ∷ [] };
  closing = [];
  conn_closes = 1;
}

over-Acts : Acts taken over
over-Acts =
    next
      (next (next here (write_moves _ (gives_up 0) _ (writer_refused refl) refl))
        (write_moves _ no_write _ writer_given_up refl))
      (close_returns true [] first refl)

all-Acts : Acts start over
all-Acts =
    next
      (next (next taken-Acts (write_moves _ (gives_up 0) _ (writer_refused refl) refl))
        (write_moves _ no_write _ writer_given_up refl))
      (close_returns true [] first refl)

closed_for_good_example :
    (over.rwc ≡ closed) × (over.conn_closes + over.abandoned + to_close over.closing ≡ 1)
closed_for_good_example = closed_for_good taken over taken-Acts refl over-Acts

no_writer_leaks_example : Memᴰ 0 over.writers.ended
no_writer_leaks_example = no_writer_leaks over all-Acts refl refl refl 0 (omega arith)

-- The rest of the message, what was written, and the calls of the connection.
record World : Type 0 where
  unread : List ℕ
  sent : List ℕ
  writers : Writers
  conn_closes : ℕ

abbrev end_of : List ℕ → Option GoError
end_of [] = some eof
end_of (x ∷ xs) = none

abbrev counting : WebSocket World ℕ ℕ
counting = record {
  next_reader = λ w. (opened 0, w);
  read = λ r k w. (take k w.unread, end_of w.unread, record w { unread = drop k w.unread });
  next_writer = λ w. (
    opened w.writers.opened,
    record w { writers = record w.writers { opened = suc w.writers.opened } },
  );
  write = λ v p w. (length p, none, record w { sent = w.sent ++ p });
  close_writer = λ v w. (none, record w { writers = end_writer v w.writers });
  close_conn = λ w. (none, record w { conn_closes = suc w.conn_closes });
}

abbrev calls : World → Calls
calls w = (w.writers, w.conn_closes)

counting-IsCounted : IsCounted counting calls
counting-IsCounted = record {
  on_next_reader = λ w. refl;
  on_read = λ r len w. refl;
  on_opened = λ n w w' q. (cc, sym (ap (λ x. calls x.1) q));
  on_failed = λ e w w' q. cc;
  on_write = λ n p w. refl;
  on_close_writer = λ n w. refl;
  on_close = λ w. refl;
}

take-moves : (k : ℕ) (w : List ℕ) → 0 < k → end_of w ≡ none → 0 < length (take k w)
take-moves zero w h e = elim h [ ]
take-moves (suc k) [] h e = cc
take-moves (suc k) (x ∷ w) h e = omega arith

counting-IsMoving : IsMoving counting
counting-IsMoving = record {
  gives = λ r k w h e. take-moves k w.unread h e;
  takes = λ v p w h e. h;
}

-- A writer is open, and of a message of three bytes nothing is read.
abbrev one_open : Fields
one_open = record { ws = true; r = none; w = some 0 }

abbrev world : World
world = record {
  unread = 1 ∷ 2 ∷ 3 ∷ [];
  sent = 8 ∷ [];
  writers = record { opened = 1; ended = [] };
  conn_closes = 0;
}

abbrev ended : World
ended = record world { writers = record { opened = 1; ended = 0 ∷ [] } }

sequential_Acts_example :
    EndsIn {X = List ℕ} calls IsRead
      (idle one_open (calls world))
      (some (closed, [], some closed_pipe, world))
    × EndsIn {X = ℕ} calls IsWritten
        (idle one_open (calls world))
        (some (record one_open { w = none }, 1, none, record ended { sent = 8 ∷ 9 ∷ [] }))
    × EndsAs calls {X = Unit {0}} IsClosed
        (idle one_open (calls world))
        (closed, tt, none, record ended { conn_closes = 1 })
unfolding read read_loop write write_loop close close_socket
sequential_Acts_example =
    sequential_Acts counting calls one_open true 2 (9 ∷ []) world counting-IsCounted
      counting-IsMoving
