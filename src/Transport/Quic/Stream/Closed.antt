-- ===== src/Transport/Quic/Stream/Closed.antt =====
-- A QuicTransportStream (src/transport/quic_transport.cpp) after on_close.
use mathlib.Core.Option
use reverse_proxy_server.Base.{
  ℕ, ◌≡◌, refl, sym, subst, List, [], ◌∷◌, ◌++◌, append-nil, append_assoc, Option, none, some, Bool,
  true, false, ◌||◌, if◌then◌else◌, ◌==◌, arith,
}
use reverse_proxy_server.Text.{Bytes}
use reverse_proxy_server.Http.Stream.{ErrorCode, eof, connection_reset}
use reverse_proxy_server.H3.Heads.{HeaderList}
use reverse_proxy_server.Transport.Quic.Stream.{
  QuicStream, WriteOp, Called, WriteAnswer, ReadAnswer, call, read_done, headers_sent,
  shutdown_done, flush_calls, flush_queue, pump_write, async_write_some, on_writeable,
  async_read_some, async_take_headers, async_send_headers, try_take_headers, read_into, fail_read,
  finish_shutdown, on_readable, on_close, on_reset, async_shutdown,
}
use reverse_proxy_server.Transport.Quic.Stream.Machine.{
  Event, run, writes, writeable, reads, takes_headers, sends_headers, shuts_down, readable, closes,
  resets,
}

-- Nothing waits but a header take, and lsquic was given no more than `a` and `b`.
pub record IsDead (h : Option ℕ) (a : Bytes) (b : List HeaderList) (s : QuicStream) : Type 0 where
  pub closed : s.live ≡ false
  pub no_read : s.read_cb ≡ none
  pub no_write : s.write_queue ≡ []
  pub no_shutdown : s.shutdown_cb ≡ none
  pub header_take : s.headers_cb ≡ h
  pub bytes : s.accepted ≡ a
  pub blocks : s.header_blocks ≡ b

-- Whether async_shutdown is called.
abbrev pub shuts : List Event → Bool
shuts [] = false
shuts (shuts_down cb ok ∷ es) = true
shuts (_ ∷ es) = shuts es

-- The calls of on_close.
abbrev pub read_calls : Option (ℕ × ℕ) → List Called
read_calls none = []
read_calls (some (size, cb)) = read_done cb (some eof) [] ∷ []

abbrev pub shutdown_calls : Option ℕ → List Called
shutdown_calls none = []
shutdown_calls (some cb) = shutdown_done cb ∷ []

abbrev pub close_calls : QuicStream → List Called
close_calls s =
    read_calls s.read_cb ++ (flush_calls eof s.write_queue ++ shutdown_calls s.shutdown_cb)

-- All that on_close does.
pub on_close_lem :
    (s : QuicStream)
    → on_close s ≡ record s {
      live = false;
      read_cb = none;
      write_queue = [];
      writing = false;
      shutdown_cb = none;
      called = s.called ++ close_calls s;
    }
unfolding on_close fail_read finish_shutdown flush_queue call
on_close_lem s = by_callbacks s.read_cb s.shutdown_cb refl refl
  where
    by_callbacks :
        (o : Option (ℕ × ℕ)) (p : Option ℕ)
        → s.read_cb ≡ o
        → s.shutdown_cb ≡ p
        → Path QuicStream
            (record (finish_shutdown p
              (flush_queue eof (fail_read eof o (record s { live = false })))) { writing = false })
            (record s {
              live = false;
              read_cb = none;
              write_queue = [];
              writing = false;
              shutdown_cb = none;
              called =
                  s.called ++ (read_calls o ++ (flush_calls eof s.write_queue ++ shutdown_calls p));
            })
    by_callbacks none none e f = rw (e, f, append-nil) refl
    by_callbacks none (some cb) e f = rw (e, append_assoc) refl
    by_callbacks (some (size, cb)) none e f = rw (f, append-nil, append_assoc) refl
    by_callbacks (some (size, cb)) (some c) e f = rw append_assoc (rw append_assoc refl)

module _ (h : Option ℕ) (a : Bytes) (b : List HeaderList) where
  abbrev Dead : QuicStream → Type 0
  Dead = IsDead h a b

  -- A callback is called.
  call-Dead : (c : Called) (s : QuicStream) → Dead s → Dead (call c s)
  unfolding call
  call-Dead c s d = record {
    closed = d.closed;
    no_read = d.no_read;
    no_write = d.no_write;
    no_shutdown = d.no_shutdown;
    header_take = d.header_take;
    bytes = d.bytes;
    blocks = d.blocks;
  }

  -- The queue is flushed, whatever it holds.
  flush_queue-Dead :
      (e : ErrorCode) (q : List WriteOp) (wr : Bool) (s : QuicStream)
      → Dead s
      → Dead (record (flush_queue e (record s { write_queue = q })) { writing = wr })
  unfolding flush_queue
  flush_queue-Dead e q wr s d = record {
    closed = d.closed;
    no_read = d.no_read;
    no_write = refl;
    no_shutdown = d.no_shutdown;
    header_take = d.header_take;
    bytes = d.bytes;
    blocks = d.blocks;
  }

  pump_write-Dead :
      (w : WriteAnswer) (q : List WriteOp) (wr : Bool) (s : QuicStream)
      → Dead s
      → Dead (pump_write w (record s { write_queue = q; writing = wr }))
  unfolding pump_write flush_queue
  pump_write-Dead w q wr s d = subst Dead (ground (arith, d.closed)) (flush_queue-Dead eof q wr s d)

  on_readable-Dead :
      (hset : Option HeaderList) (r : ReadAnswer) (s : QuicStream)
      → Dead s
      → Dead (on_readable hset r s)
  unfolding on_readable try_take_headers read_into
  on_readable-Dead hset r s d = ground (arith, d.closed, d.no_read, d)

  async_read_some-Dead : (size cb : ℕ) (s : QuicStream) → Dead s → Dead (async_read_some size cb s)
  unfolding async_read_some
  async_read_some-Dead size cb s d =
      ground (arith, d.closed, call-Dead (read_done cb (some eof) []) s d)

  async_take_headers-Dead :
      (cb : ℕ) (hset : Option HeaderList) (s : QuicStream)
      → Dead s
      → Dead (async_take_headers cb hset s).0
  unfolding async_take_headers
  async_take_headers-Dead cb hset s d = ground (arith, d.closed, d)

  async_send_headers-Dead :
      (l : HeaderList) (cb : ℕ) (ok : Bool) (s : QuicStream)
      → Dead s
      → Dead (async_send_headers l cb ok s).0
  unfolding async_send_headers
  async_send_headers-Dead l cb ok s d =
      ground (arith, d.closed, call-Dead (headers_sent cb (some eof)) s d)

  on_close-Dead : (s : QuicStream) → Dead s → Dead (on_close s)
  on_close-Dead s d = subst Dead (sym (on_close_lem s)) (record {
    closed = refl;
    no_read = refl;
    no_write = refl;
    no_shutdown = refl;
    header_take = d.header_take;
    bytes = d.bytes;
    blocks = d.blocks;
  })

  if-Dead : (c : Bool) (x y : QuicStream) → Dead x → Dead y → Dead (if c then x else y)
  if-Dead true x y p q = p
  if-Dead false x y p q = q

  fail_read-Dead :
      (e : ErrorCode) (o : Option (ℕ × ℕ)) (s : QuicStream)
      → o ≡ none
      → Dead s
      → Dead (fail_read e o s)
  unfolding fail_read
  fail_read-Dead e none s n d = d
  fail_read-Dead e (some p) s n d = cc

  on_reset-Dead : (how : ℕ) (s : QuicStream) → Dead s → Dead (on_reset how s)
  unfolding on_reset
  on_reset-Dead how s d =
      let r = if how == 0 || how == 2 then fail_read connection_reset s.read_cb s else s in
      let quiet =
        if-Dead (how == 0 || how == 2) (fail_read connection_reset s.read_cb s) s
          (fail_read-Dead connection_reset s.read_cb s d.no_read d) d in
      if-Dead (how == 1 || how == 2) (record (flush_queue connection_reset r) { writing = false }) r
        (flush_queue-Dead connection_reset r.write_queue false r quiet) quiet

  -- What a run from a closed stream comes to.
  abbrev pub Afterwards : Bool → Option QuicStream → Type 0
  Afterwards true o = o ≡ none
  Afterwards false o = (t : QuicStream) × (o ≡ some t) × IsDead h a b t

  run-Afterwards : (es : List Event) (s : QuicStream) → Dead s → Afterwards (shuts es) (run es s)
  unfolding async_write_some on_writeable async_shutdown Option.bind
  run-Afterwards [] s d = (s, refl, d)
  run-Afterwards (writes buf cb w ∷ es) s d =
      run-Afterwards es (async_write_some buf cb w s) (pump_write-Dead w _ s.writing s d)
  run-Afterwards (writeable w ∷ es) s d =
      run-Afterwards es (on_writeable w s) (pump_write-Dead w s.write_queue false s d)
  run-Afterwards (reads size cb ∷ es) s d =
      run-Afterwards es (async_read_some size cb s) (async_read_some-Dead size cb s d)
  run-Afterwards (takes_headers cb hset ∷ es) s d =
      run-Afterwards es (async_take_headers cb hset s).0 (async_take_headers-Dead cb hset s d)
  run-Afterwards (sends_headers l cb ok ∷ es) s d =
      run-Afterwards es (async_send_headers l cb ok s).0 (async_send_headers-Dead l cb ok s d)
  run-Afterwards (shuts_down cb ok ∷ es) s d = rw d.closed refl
  run-Afterwards (readable hset r ∷ es) s d =
      run-Afterwards es (on_readable hset r s) (on_readable-Dead hset r s d)
  run-Afterwards (closes ∷ es) s d = run-Afterwards es (on_close s) (on_close-Dead s d)
  run-Afterwards (resets how ∷ es) s d = run-Afterwards es (on_reset how s) (on_reset-Dead how s d)

-- After on_close, whatever operations and callbacks of lsquic follow, one after the other: if none of
-- them is async_shutdown, the stream stays closed, no read, write or shutdown waits on it again, lsquic
-- gets nothing more from it, and a header take that waited still waits. If one is async_shutdown, the
-- code hands lsquic_stream_shutdown a null stream.
pub on_close-IsDead :
    (s : QuicStream) (es : List Event)
    → Afterwards s.headers_cb s.accepted s.header_blocks (shuts es) (run es (on_close s))
on_close-IsDead s es = run-Afterwards s.headers_cb s.accepted s.header_blocks es (on_close s) (
    subst (IsDead s.headers_cb s.accepted s.header_blocks) (sym (on_close_lem s)) (record {
      closed = refl;
      no_read = refl;
      no_write = refl;
      no_shutdown = refl;
      header_take = refl;
      bytes = refl;
      blocks = refl;
    }))
