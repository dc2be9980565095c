-- ===== src/Relay/Bytes.antt =====
-- `byteStreamReader` of basispoints/wire.go: the chunks of a ByteStream as a reader of bytes.
use cliproxyapi_plugin_basis.Common.{
  ℕ, zero, suc, ◌<◌, ◌≤◌, ◌≡◌, refl, sym, ap, ◌∙◌, arith, Option, none, some, List, [], ◌∷◌, ◌++◌,
  append_assoc, length-append, is_nil, length, take, drop, if◌then◌else◌, All,
}
use cliproxyapi_plugin_basis.Common.Text.{Text}
use cliproxyapi_plugin_basis.Relay.{ReadError, end_of_stream}

-- What a read of the stream gives: bytes, and an error, which may come with the last of them.
abbrev pub Chunk : Type 0
Chunk = Text × Option ReadError

-- The fields of the reader; the stream is what its reads will give, at its end for good.
pub record ByteReader : Type 0 where
  pub buf : Text
  pub failure : Option ReadError
  pub reads : List Chunk

-- The loop of `Read`.
unfoldable pub fill : Text → Option ReadError → List Chunk → ByteReader
fill (c ∷ buf) failure reads = record { buf = c ∷ buf; failure = failure; reads = reads }
fill [] (some e) reads = record { buf = []; failure = some e; reads = reads }
fill [] none [] = record { buf = []; failure = some end_of_stream; reads = [] }
fill [] none ((chunk, failure) ∷ reads) = fill chunk failure reads

abbrev pub error_or_end : Option ReadError → ReadError
error_or_end none = end_of_stream
error_or_end (some e) = e

-- The bytes that are copied, or an error.
abbrev pub copied : ℕ → ByteReader → Text × Option ReadError × ByteReader
copied n r =
    if is_nil r.buf
    then ([], some (error_or_end r.failure), r)
    else (take n r.buf, none, record r { buf = drop n r.buf })

-- `Read` into a buffer of `n` bytes.
unfoldable pub read : ℕ → ByteReader → Text × Option ReadError × ByteReader
unfolding fill
read n r = copied n (fill r.buf r.failure r.reads)

-- Reads into buffers of some sizes, up to the first error.
abbrev pub and_more :
    Text × Option ReadError × ByteReader
    → (ByteReader → Text × Option ReadError × ByteReader)
    → Text × Option ReadError × ByteReader
and_more (bytes, some e, r) rest = (bytes, some e, r)
and_more (bytes, none, r) rest = let (more, failure, r') = rest r in (bytes ++ more, failure, r')

unfoldable pub read_all : List ℕ → ByteReader → Text × Option ReadError × ByteReader
unfolding read
read_all [] r = ([], none, r)
read_all (n ∷ sizes) r = and_more (read n r) (λ r'. read_all sizes r')

-- What the reader is still to give: the bytes before the first error of the stream, and that error.
unfoldable pub bytes_left : Option ReadError → List Chunk → Text
bytes_left (some e) reads = []
bytes_left none [] = []
bytes_left none ((chunk, failure) ∷ reads) = chunk ++ bytes_left failure reads

unfoldable pub error_left : Option ReadError → List Chunk → ReadError
error_left (some e) reads = e
error_left none [] = end_of_stream
error_left none ((chunk, failure) ∷ reads) = error_left failure reads

abbrev pub left : ByteReader → Text
left r = r.buf ++ bytes_left r.failure r.reads

abbrev pub error_of : ByteReader → ReadError
error_of r = error_left r.failure r.reads

fill-left :
    (buf : Text) (failure : Option ReadError) (reads : List Chunk)
    → (left (fill buf failure reads) ≡ buf ++ bytes_left failure reads)
      × (error_of (fill buf failure reads) ≡ error_left failure reads)
unfolding fill bytes_left error_left
fill-left (c ∷ buf) failure reads = (refl, refl)
fill-left [] (some e) reads = (refl, refl)
fill-left [] none [] = (refl, refl)
fill-left [] none ((chunk, failure) ∷ reads) = fill-left chunk failure reads

-- A buffer that is filled in vain has met the error.
fill-failed :
    (buf : Text) (failure : Option ReadError) (reads : List Chunk)
    → (fill buf failure reads).buf ≡ []
    → (left (fill buf failure reads) ≡ [])
      × (error_of (fill buf failure reads) ≡ error_or_end (fill buf failure reads).failure)
unfolding fill bytes_left error_left
fill-failed (c ∷ buf) failure reads h = absurd (cc)
fill-failed [] (some e) reads h = (refl, refl)
fill-failed [] none [] h = (refl, refl)
fill-failed [] none ((chunk, failure) ∷ reads) h = fill-failed chunk failure reads h

-- What a read gave of what was left, and with an error all of it; without one, at least a byte.
abbrev pub Gives : ℕ → Text → ReadError → Text × Option ReadError × ByteReader → Type 0
Gives least bytes e (given, none, r) =
    (given ++ left r ≡ bytes) × (error_of r ≡ e) × (least ≤ length given)
Gives least bytes e (given, some e', r) = (given ≡ bytes) × (e' ≡ e)

take-drop : (n : ℕ) (s : Text) → take n s ++ drop n s ≡ s
take-drop zero s = refl
take-drop (suc n) [] = refl
take-drop (suc n) (c ∷ s) = ap (λ t. c ∷ t) (take-drop n s)

read-Gives : (n : ℕ) (r : ByteReader) → Gives 1 (left r) (error_of r) (read (suc n) r)
unfolding read
read-Gives n r =
    given (fill r.buf r.failure r.reads) (fill-left r.buf r.failure r.reads)
      (fill-failed r.buf r.failure r.reads)
  where
    by_buf :
        (f : ByteReader) (buf : Text)
        → f.buf ≡ buf
        → (left f ≡ left r) × (error_of f ≡ error_of r)
        → (f.buf ≡ [] → (left f ≡ []) × (error_of f ≡ error_or_end f.failure))
        → Gives 1 (left r) (error_of r) (copied (suc n) (record f { buf = buf }))
    by_buf f [] p (a, b) empty = (sym (empty p).0 ∙ a, sym (empty p).1 ∙ b)
    by_buf f (c ∷ buf) p (a, b) empty = (
      sym (append_assoc (c ∷ take n buf) (drop n buf) (bytes_left f.failure f.reads))
          ∙ ap (λ (s : Text). s ++ bytes_left f.failure f.reads)
              (take-drop (suc n) (c ∷ buf) ∙ sym p)
          ∙ a,
      b,
      omega arith,
    )

    given :
        (f : ByteReader)
        → (left f ≡ left r) × (error_of f ≡ error_of r)
        → (f.buf ≡ [] → (left f ≡ []) × (error_of f ≡ error_or_end f.failure))
        → Gives 1 (left r) (error_of r) (copied (suc n) f)
    given f ab empty = by_buf f f.buf refl ab empty

read_all-Gives :
    (sizes : List ℕ) (r : ByteReader)
    → All (λ n. 0 < n) sizes
    → Gives (length sizes) (left r) (error_of r) (read_all sizes r)
unfolding read_all
read_all-Gives [] r h = (refl, refl, omega arith)
read_all-Gives (zero ∷ sizes) r h = absurd (omega arith)
read_all-Gives (suc n ∷ sizes) r h =
    next (read (suc n) r) (read-Gives n r) (λ r'. read_all-Gives sizes r' h.1)
  where
    next :
        (x : Text × Option ReadError × ByteReader)
        → Gives 1 (left r) (error_of r) x
        → ((r' : ByteReader) → Gives (length sizes) (left r') (error_of r') (read_all sizes r'))
        → Gives (suc (length sizes)) (left r) (error_of r) (and_more x (λ r'. read_all sizes r'))
    next (bytes, some e, r') g later = g
    next (bytes, none, r') (a, b, one) later = joined (read_all sizes r') (later r')
      where
        joined :
            (y : Text × Option ReadError × ByteReader)
            → Gives (length sizes) (left r') (error_of r') y
            → Gives (suc (length sizes)) (left r) (error_of r) (bytes ++ y.0, y.1, y.2)
        joined (more, some e, r'') (p, q) = (ap (λ (s : Text). bytes ++ s) p ∙ a, q ∙ b)
        joined (more, none, r'') (p, q, many) = (
          append_assoc bytes more (left r'') ∙ ap (λ (s : Text). bytes ++ s) p ∙ a,
          q ∙ b,
          omega (arith, length-append bytes more),
        )

-- Whatever the sizes of the buffers, none of which is empty: as soon as there are more reads than
-- bytes before the first error of the stream, they have given those bytes, in order and no others,
-- and then that error.
pub read_all-left :
    (sizes : List ℕ) (r : ByteReader)
    → All (λ n. 0 < n) sizes
    → length (left r) < length sizes
    → ((read_all sizes r).0 ≡ left r) × ((read_all sizes r).1 ≡ some (error_of r))
read_all-left sizes r h many = ended (read_all sizes r) (read_all-Gives sizes r h)
  where
    ended :
        (x : Text × Option ReadError × ByteReader)
        → Gives (length sizes) (left r) (error_of r) x
        → (x.0 ≡ left r) × (x.1 ≡ some (error_of r))
    ended (bytes, some e, r') (p, q) = (p, ap some q)
    ended (bytes, none, r') (p, q, least) =
        absurd (omega (arith, ap length p, length-append bytes (left r')))
