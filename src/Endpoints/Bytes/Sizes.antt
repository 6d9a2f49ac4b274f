-- ===== src/Endpoints/Bytes/Sizes.antt =====
-- The sizes of what src/endpoints/http/bytes.ts and stream-bytes.ts send. Of `node:crypto` and
-- `Buffer` it is used that a SHA-256 hash is not empty, that `randomBytes` gives as many bytes as it
-- is asked for, and that `Buffer.concat` joins parts whose sizes add up to the given one.
use testserver.Prelude.{
  ℕ, zero, suc, ◌-◌, ◌≤◌, ◌≡◌, refl, min, Option, none, some, List, [], ◌∷◌, ◌++◌, All, map, length,
  take, length-take, length-append, ok, arith, Bool-cases, inl, inr, ◌==◌,
}
use testserver.Text.{Text, codes}
use testserver.Text.Number.{ℤ, pos, negsuc}
use testserver.Endpoints.{Exchange, Call, write_head, write, finish, bytes, Runtime, query_get}
use testserver.Endpoints.Bytes.{
  digest, hash_parts, chunk, stream_chunks, chunk_size, at_least_one, parse_bytes,
  handle_stream_bytes, octets,
}

abbrev pub flatten : List (List ℕ) → List ℕ
flatten [] = []
flatten (p ∷ ps) = p ++ flatten ps

-- Chunks of at most `limit` bytes, none of them empty, that are `n` bytes together.
abbrev pub Chunks : ℕ → ℕ → List (List ℕ) → Type 0
Chunks limit n chunks =
    (length (flatten chunks) ≡ n) × All (λ (b : List ℕ). (1 ≤ length b) × (length b ≤ limit)) chunks

abbrev pub writes : {F : Type 0} → List (List ℕ) → List (Call F)
writes chunks = map (λ b. write (bytes b)) chunks

-- The documented behaviour that the sizes rest on.
pub record Sized {F : Type 0} (R : Runtime F) : Type 0 where
  pub hash_not_empty : (t : Text) → 1 ≤ length (R.sha256 t)
  pub random_size : (k n : ℕ) → (b : List ℕ) × (R.random_bytes k (some n) ≡ ok b) × (length b ≡ n)
  pub concat_parts :
      (parts : List (List ℕ)) (n : ℕ)
      → length (flatten parts) ≡ n
      → R.concat parts (some n) ≡ ok (flatten parts)

at_least_one-positive : (o : Option ℤ) (n : ℕ) → at_least_one o ≡ some n → 1 ≤ n
at_least_one-positive none n h = absurd (ground arith)
at_least_one-positive (some (pos k)) n h = ground arith
at_least_one-positive (some (negsuc k)) n h = ground arith

chunk_size-positive : (query : List (Text × Text)) (n : ℕ) → chunk_size query ≡ some n → 1 ≤ n
unfolding chunk_size
chunk_size-positive query n h = at_least_one-positive _ n h

module _ {F : Type 0} (R : Runtime F) (sized : Sized R) where
  -- The chain of hashes gives as many bytes as are asked for.
  hash_parts-length :
      (seed : Text) (fuel counter n : ℕ)
      → n ≤ fuel
      → length (flatten (hash_parts R seed fuel counter n).0) ≡ n
  unfolding hash_parts
  hash_parts-length seed zero counter n h = omega arith
  hash_parts-length seed (suc fuel) counter n h = elim (Bool-cases (n == 0)) [
    | inl e ↦ rw e (ground arith)
    | inr e ↦
        let positive : 1 ≤ n = ground arith in
        let hash = digest R seed counter in
        let some_hash : 1 ≤ length hash = sized.hash_not_empty _ in
        let rest =
          hash_parts-length seed fuel (suc counter) (n - length hash)
            (omega (arith, h, some_hash)) in
        rw e (
          omega (
            arith,
            rest,
            length-append (take (min n (length hash)) hash)
                (flatten (hash_parts R seed fuel (suc counter) (n - length hash)).0),
            length-take (min n (length hash)) hash,
          ))
  ]

  -- A chunk has the size that is asked for.
  chunk-length :
      (seed : Option Text) (counter n : ℕ)
      → (b : List ℕ) × ((chunk R seed counter (some n)).0 ≡ ok b) × (length b ≡ n)
  unfolding chunk
  chunk-length none counter n = sized.random_size counter n
  chunk-length (some seed) counter n =
      let size = hash_parts-length seed n counter n (omega arith) in
      (flatten (hash_parts R seed n counter n).0, sized.concat_parts _ n size, size)

  stream_chunks-Chunks :
      (seed : Option Text) (limit fuel counter n : ℕ)
      → 1 ≤ limit
      → n ≤ fuel
      → (chunks : List (List ℕ)) × (stream_chunks R seed (some limit) fuel counter n
          ≡ (writes chunks ++ finish none ∷ [], none))
        × Chunks limit n chunks
  unfolding stream_chunks
  stream_chunks-Chunks seed limit zero counter n l h = ([], refl, (omega arith, tt))
  stream_chunks-Chunks seed limit (suc fuel) counter n l h = elim (Bool-cases (n == 0)) [
    | inl e ↦ rw e ([], refl, (ground arith, tt))
    | inr e ↦
        let positive : 1 ≤ n = ground arith in
        let made = chunk R seed counter (some (min n limit)) in
        let (b, got, size) = chunk-length seed counter (min n limit) in
        let (chunks, calls, (total, sizes)) =
          stream_chunks-Chunks seed limit fuel made.1 (n - min n limit) l (omega arith) in
        rw (e, got, calls)
          (
            b ∷ chunks,
            refl,
            (
              omega (arith, total, size, length-append b (flatten chunks)),
              ((omega (arith, size), omega (arith, size)), sizes),
            ),
          )
  ]

  -- `/stream-bytes/n`, with a `chunk_size` that is a number, sends the head, then chunks that are
  -- `n` bytes together, none of them empty and each at most of the chunk size, and then the end of
  -- the response; it throws nothing. This holds with a seed and without, if hashes are not empty and
  -- `randomBytes` and `Buffer.concat` give as many bytes as they are asked for.
  pub stream_bytes-Chunks :
      (x : Exchange) (path : Text) (n limit : ℕ)
      → parse_bytes (codes "/stream-bytes/") path ≡ ok n
      → chunk_size x.query ≡ some limit
      → (chunks : List (List ℕ)) × (handle_stream_bytes R x path
          ≡ (write_head (some (pos 200)) octets ∷ (writes chunks ++ finish none ∷ []), none))
        × Chunks limit n chunks
  unfolding handle_stream_bytes
  stream_bytes-Chunks x path n limit parsed size =
      let positive = chunk_size-positive x.query limit size in
      let (chunks, calls, sizes) =
        stream_chunks-Chunks (query_get x.query (codes "seed")) limit n 0 n positive
          (omega arith) in
      (chunks, rw (parsed, size, calls) refl, sizes)
