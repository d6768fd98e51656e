-- ===== src/Transport/Quic/Stream/Reentry.antt =====
-- on_close and pump_write of src/transport/quic_transport.cpp on a closed stream, with write callbacks
-- that call async_write_some before they return. Each round of a loop takes a unit of fuel.
use reverse_proxy_server.Base.{
  ℕ, zero, suc, List, [], ◌∷◌, ◌++◌, Option, none, some, Bool, true, false, if◌then◌else◌,
}
use reverse_proxy_server.Text.{Bytes}
use reverse_proxy_server.Http.Stream.{eof}
use reverse_proxy_server.Transport.Quic.Stream.{QuicStream, WriteOp, write_done, call, fail_read}

-- What the write callbacks do, in the order in which they are called: nothing, or a write with a
-- callback of its own. Behind the end of the list they do nothing.
abbrev pub Reactions : Type 0
Reactions = List (Option (Bytes × ℕ))

pub record Flushing : Type 0 where
  pub stream : QuicStream
  pub reactions : Reactions
  -- pop() was called on an empty queue.
  pub broken : Bool

unfoldable pub pop_from : List WriteOp → Flushing → Flushing
pop_from [] f = record f { broken = true }
pop_from (op ∷ q) f = record f { stream = record f.stream { write_queue = q } }

-- `write_queue_.pop()`.
unfoldable pub pop_write : Flushing → Flushing
unfolding pop_from
pop_write f = pop_from f.stream.write_queue f

-- async_write_some on a closed stream, whose pump_write runs the loop `again`.
unfoldable pub write_again : (Flushing → Flushing) → Bytes → ℕ → Flushing → Flushing
write_again again buf cb f = again (record f {
  stream = record f.stream {
    write_queue = f.stream.write_queue ++ record { payload = buf; offset = 0; cb = cb } ∷ [];
  };
})

-- What the callback that was just called does.
unfoldable pub react : (Flushing → Flushing) → Reactions → Flushing → Flushing
unfolding write_again
react again [] f = f
react again (none ∷ rs) f = record f { reactions = rs }
react again (some (buf, cb) ∷ rs) f = write_again again buf cb (record f { reactions = rs })

-- A round: the front callback is called, and then the front is popped.
unfoldable pub flush_round : (Flushing → Flushing) → List WriteOp → Flushing → Flushing
unfolding react pop_write
flush_round again [] f = f
flush_round again (op ∷ q) f =
    let called : Flushing = record f { stream = call (write_done op.cb (some eof) 0) f.stream } in
    let popped = pop_write (react again f.reactions called) in
    let rest = again popped in if popped.broken then popped else rest

-- `while (!write_queue_.empty())`, up to the first pop of an empty queue.
unfoldable pub flush_loop : ℕ → Flushing → Flushing
unfolding flush_round
flush_loop zero f = f
flush_loop (suc k) f = flush_round (flush_loop k) f.stream.write_queue f

-- on_close up to the end of its loop.
unfoldable pub close_reacting : ℕ → Reactions → QuicStream → Flushing
unfolding flush_loop
close_reacting k rs s = flush_loop k (record {
  stream = fail_read eof s.read_cb (record s { live = false });
  reactions = rs;
  broken = false;
})
