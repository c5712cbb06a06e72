-- ===== src/Yfs/Bytes.antt =====
-- What `_setattr`, `_read` and `_write` of yfs_client.cc do to the content of a file. Offsets are
-- not negative, and sizes are below 2 ^ 31.
use lab_cse.Prelude.{
  ℕ, ◌+◌, ◌-◌, ◌<◌, ◌≡◌, subst, ltb_false→le, [], ◌++◌, false, ltb, leb, if◌then◌else◌, Bool-cases,
  inl, inr, arith, length, take, drop, replicate, length-append, length-take, length-replicate,
  take-append_length, drop-append_length,
}
use lab_cse.Prelude.Text.{Text}

-- `buf.resize(size)`
unfoldable pub resize : ℕ → Text → Text
resize size buf = take size buf ++ replicate (size - length buf) 0

-- What `_read` gives for the content `buf`.
unfoldable pub read_at : ℕ → ℕ → Text → Text
read_at size off buf = if leb (length buf) off then [] else take size (drop off buf)

-- What `_write` puts in place of the content `buf`; `towrite` has `size` bytes.
unfoldable pub write_at : ℕ → Text → Text → Text
unfolding resize
write_at off towrite buf =
    let buf1 = if ltb (length buf) off then resize off buf else buf in
    take off buf1 ++ (towrite ++ drop (off + length towrite) buf1)

-- A front of `off` bytes.
front :
    (off : ℕ) (buf : Text)
    → length (take off (if ltb (length buf) off then resize off buf else buf)) ≡ off
unfolding resize
front off buf = elim (Bool-cases (ltb (length buf) off)) [
  | inl e ↦ rw e (
      omega (
        arith,
        length-take {0} off (take off buf ++ replicate (off - length buf) 0),
        length-append {0} (take off buf) (replicate (off - length buf) 0),
        length-take {0} off buf,
        length-replicate {0} {A = ℕ} (off - length buf) 0,
      ))
  | inr e ↦ rw e (omega (arith, length-take {0} off buf, ltb_false→le (length buf) off e))
]

over : (n off : ℕ) → off < n → leb n off ≡ false
over n off h = ground arith

drop_front : (n : ℕ) (xs ys : Text) → length xs ≡ n → drop n (xs ++ ys) ≡ ys
drop_front n xs ys e = subst (λ k. drop k (xs ++ ys) ≡ ys) e (drop-append_length xs ys)

-- `_read` of the bytes that `_write` has written, with the same size and offset, gives them back,
-- also where the offset stands behind the end of the old content, if there are any.
pub read_at-write_at :
    (off : ℕ) (towrite buf : Text)
    → 0 < length towrite
    → read_at (length towrite) off (write_at off towrite buf) ≡ towrite
unfolding read_at write_at
read_at-write_at off towrite buf some_bytes =
    let buf1 = if ltb (length buf) off then resize off buf else buf in
    let f : length (take off buf1) ≡ off = front off buf in
    let rest = drop (off + length towrite) buf1 in
    let inside : leb (length (take off buf1 ++ (towrite ++ rest))) off ≡ false =
      over (length (take off buf1 ++ (towrite ++ rest))) off (
        omega (
          arith,
          f,
          length-append {0} (take off buf1) (towrite ++ rest),
          length-append {0} towrite rest,
        )) in
    rw (inside, drop_front off (take off buf1) (towrite ++ rest) f)
      (take-append_length towrite rest)
