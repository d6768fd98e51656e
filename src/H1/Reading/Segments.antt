-- ===== src/H1/Reading/Segments.antt =====
-- read_header_block of src/codec/h1_codec.cpp on a stream that arrives in segments.
use reverse_proxy_server.Base.{
  ℕ, zero, suc, ◌+◌, ◌≤◌, ◌<◌, ◌≡◌, ◌≢◌, refl, sym, ap, ◌∙◌, inl, inr, [], ◌∷◌, ◌++◌, none, some,
  arith, leb, is_empty, take, drop, length, false, Bool-cases, Option-cases, take-append-drop,
  append_assoc, length-drop, append-nil,
}
use reverse_proxy_server.Text.{Bytes, find}
use reverse_proxy_server.Text.Laws.{find-le, find-append, take-append, drop-append}
use reverse_proxy_server.Http.Stream.{
  bytes, fault, Input, Read, read_some, arriving, reads_left, Flows,
}
use reverse_proxy_server.H1.Reading.{
  block_end, chunk_size, HeadRead, block, read_head, split_block, search,
}

-- The read stops at the block that ends at `p` in the stream `s`: the block is as if all bytes had
-- come at once, and what is left, in the buffer and on the stream, is the rest of `s`.
pub record Splits (s : Bytes) (p : ℕ) (r : HeadRead) : Type 0 where
  pub prefix : Bytes
  pub rest : Input
  pub reads : r ≡ block (take (p + 4) s) prefix rest
  pub keeps : prefix ++ arriving rest ≡ drop (p + 4) s
  pub flows : Flows rest

-- One read of an input that flows: some bytes come, and the stream is what it was.
record Progress (cap : ℕ) (i : Input) : Type 0 where
  read : Read
  happens : read_some cap i ≡ some read
  no_error : read.ec ≡ none
  some_bytes : is_empty read.got ≡ false
  same_bytes : read.got ++ arriving read.rest ≡ arriving i
  rest_flows : Flows read.rest
  fewer : reads_left read.rest < reads_left i

drop_ne_nil : (n : ℕ) (xs : Bytes) → n < length xs → drop n xs ≢ []
drop_ne_nil n xs h e = let l = ap length e in omega (arith, length-drop n xs)

read_some-Progress :
    (k : ℕ) (b : Bytes) (i : Input) → b ≢ [] → Flows i → Progress (suc k) (bytes b ∷ i)
unfolding read_some
read_some-Progress k [] i ne f = absurd (ne refl)
read_some-Progress k (x ∷ b) i ne f = elim (Bool-cases (leb (suc (length b)) (suc k))) [
  | inl fits ↦ record {
    read = record { ec = none; got = x ∷ b; rest = i };
    happens = rw fits;
    no_error = refl;
    some_bytes = refl;
    same_bytes = refl;
    rest_flows = f;
    fewer = omega arith;
  }
  | inr long ↦ record {
    read = record { ec = none; got = x ∷ take k b; rest = bytes (drop k b) ∷ i };
    happens = rw long;
    no_error = refl;
    some_bytes = refl;
    same_bytes = ap (◌∷◌ x) (
        sym (append_assoc (take k b) (drop k b) (arriving i))
        ∙ ap (λ s. s ++ arriving i) (take-append-drop k b));
    rest_flows = (drop_ne_nil k b (ground arith), f);
    fewer = omega (arith, length-drop k b, too_long long);
  }
]
  where
    too_long : leb (suc (length b)) (suc k) ≡ false → k < length b
    too_long l = ground arith

split_block-Splits :
    (buf : Bytes) (rest : Input) (p : ℕ)
    → p + 4 ≤ length buf
    → Flows rest
    → Splits (buf ++ arriving rest) p (split_block buf rest p)
unfolding split_block
split_block-Splits buf rest p h f = record {
  prefix = drop (p + 4) buf;
  rest = rest;
  reads = rw (take-append (p + 4) buf (arriving rest) h);
  keeps = sym (drop-append (p + 4) buf (arriving rest) h);
  flows = f;
}

module _ (fuel : ℕ) (buf : Bytes) {i : Input} (g : Progress chunk_size i) where
  read_head-search :
      read_head (suc fuel) buf i
      ≡ search (read_head fuel) (buf ++ g.read.got) g.read.rest (find block_end (buf ++ g.read.got))
  unfolding read_head
  read_head-search = rw (g.happens, g.no_error, g.some_bytes)

  same_stream : (buf ++ g.read.got) ++ arriving g.read.rest ≡ buf ++ arriving i
  same_stream = append_assoc buf g.read.got (arriving g.read.rest) ∙ ap (◌++◌ buf) g.same_bytes

  -- The block ends in what this read brought: at the same place as in the whole stream.
  search-found :
      (p q : ℕ)
      → find block_end (buf ++ g.read.got) ≡ some q
      → find block_end (buf ++ arriving i) ≡ some p
      → Splits (buf ++ arriving i) p (read_head (suc fuel) buf i)
  unfolding search split_block
  search-found p q e hit =
      rw (read_head-search, e, search, ← same_stream, same_place)
        (split_block-Splits (buf ++ g.read.got) g.read.rest p room g.rest_flows)
    where
      same_place : q ≡ p
      same_place = same (
          sym (find-append block_end (buf ++ g.read.got) (arriving g.read.rest) q e)
          ∙ rw same_stream hit)
        where
          same : some q ≡ some p → q ≡ p
          same s = cc

      room : p + 4 ≤ length (buf ++ g.read.got)
      room = find-le block_end (buf ++ g.read.got) p (rw same_place at e)

  search-again :
      (p : ℕ)
      → find block_end (buf ++ g.read.got) ≡ none
      → Splits
          ((buf ++ g.read.got) ++ arriving g.read.rest)
          p
          (read_head fuel (buf ++ g.read.got) g.read.rest)
      → Splits (buf ++ arriving i) p (read_head (suc fuel) buf i)
  unfolding search read_head
  search-again p e s = rw (read_head-search, e, search, ← same_stream) s

read_head-Splits :
    (fuel : ℕ) (buf : Bytes) (i : Input) (p : ℕ)
    → reads_left i < fuel
    → Flows i
    → find block_end buf ≡ none
    → find block_end (buf ++ arriving i) ≡ some p
    → Splits (buf ++ arriving i) p (read_head fuel buf i)
read_head-Splits zero buf i p h f miss hit = elim h [ ]
read_head-Splits (suc fuel) buf [] p h f miss hit =
    absurd (nothing (sym miss ∙ rw (append-nil buf) at hit))
  where
    nothing : none ≡ some p → ⊥
    nothing e = cc
read_head-Splits (suc fuel) buf (fault e ∷ i) p h f miss hit = elim f [ ]
read_head-Splits (suc fuel) buf (bytes b ∷ i) p h f miss hit =
    let g = read_some-Progress 4095 b i f.0 f.1 in
    elim (Option-cases (find block_end (buf ++ g.read.got))) [
      | inl e ↦ search-again fuel buf g p e (
          read_head-Splits fuel (buf ++ g.read.got) g.read.rest p (omega (arith, g.fewer))
            g.rest_flows e (rw (same_stream fuel buf g) hit))
      | inr (q, e) ↦ search-found fuel buf g p q e hit
    ]

-- A header block that arrives in segments of any lengths, with at least a byte each and no fault
-- before it is complete, is split off just where the first blank line stands in the whole stream:
-- the block given to the parser is that prefix of the stream, and the bytes that came with it
-- together with those still on the stream are the rest, in order. One unit of fuel for each byte and
-- each segment, and one more, are enough.
pub read_head-segments :
    (fuel : ℕ) (i : Input) (p : ℕ)
    → reads_left i < fuel
    → Flows i
    → find block_end (arriving i) ≡ some p
    → Splits (arriving i) p (read_head fuel [] i)
read_head-segments fuel i p h f hit = read_head-Splits fuel [] i p h f (unfold find in refl) hit
