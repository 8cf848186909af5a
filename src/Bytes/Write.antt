-- ===== src/Bytes/Write.antt =====
-- Stores into a byte array in place, and what the fields of the array are afterwards.
use tcp_info.Base.{
  ℕ, zero, suc, ◌+◌, ◌-◌, ◌≤◌, ◌≡◌, refl, sym, ap, [], ◌∷◌, arith, length, take, drop,
}
use tcp_info.Bytes.{Bytes, field}

-- The first bytes are replaced; nothing is written past the end.
unfoldable pub overwrite : Bytes → Bytes → Bytes
overwrite [] ys = ys
overwrite (x ∷ xs) [] = []
overwrite (x ∷ xs) (y ∷ ys) = x ∷ overwrite xs ys

-- `copy(raw[off:], bs)`.
unfoldable pub write : ℕ → Bytes → Bytes → Bytes
write zero bs ys = overwrite bs ys
write (suc o) bs [] = []
write (suc o) bs (y ∷ ys) = y ∷ write o bs ys

pub length-overwrite : (bs ys : Bytes) → length (overwrite bs ys) ≡ length ys
unfolding overwrite
length-overwrite [] ys = refl
length-overwrite (x ∷ xs) [] = refl
length-overwrite (x ∷ xs) (y ∷ ys) = ap suc (length-overwrite xs ys)

pub length-write : (o : ℕ) (bs ys : Bytes) → length (write o bs ys) ≡ length ys
unfolding write
length-write zero bs ys = length-overwrite bs ys
length-write (suc o) bs [] = refl
length-write (suc o) bs (y ∷ ys) = ap suc (length-write o bs ys)

pub overwrite_all : (bs ys : Bytes) → length bs ≡ length ys → overwrite bs ys ≡ bs
unfolding overwrite
overwrite_all [] [] h = refl
overwrite_all [] (y ∷ ys) h = absurd (omega arith)
overwrite_all (x ∷ xs) [] h = absurd (omega arith)
overwrite_all (x ∷ xs) (y ∷ ys) h = ap (◌∷◌ x) (overwrite_all xs ys (omega arith))

pub take-overwrite : (n : ℕ) (bs ys : Bytes) → take n (overwrite bs ys) ≡ overwrite bs (take n ys)
unfolding overwrite
take-overwrite zero [] ys = refl
take-overwrite zero (x ∷ xs) ys = refl
take-overwrite (suc n) [] ys = refl
take-overwrite (suc n) (x ∷ xs) [] = refl
take-overwrite (suc n) (x ∷ xs) (y ∷ ys) = ap (◌∷◌ x) (take-overwrite n xs ys)

take-write : (n o : ℕ) (bs ys : Bytes) → n ≤ o → take n (write o bs ys) ≡ take n ys
unfolding write
take-write zero o bs ys h = refl
take-write (suc n) zero bs ys h = absurd (omega arith)
take-write (suc n) (suc o) bs [] h = refl
take-write (suc n) (suc o) bs (y ∷ ys) h = ap (◌∷◌ y) (take-write n o bs ys (omega arith))

pub write-nil : (o : ℕ) (bs : Bytes) → write o bs [] ≡ []
unfolding write overwrite
write-nil zero [] = refl
write-nil zero (x ∷ bs) = refl
write-nil (suc o) bs = refl

drop-write :
    (n p o : ℕ) (bs ys : Bytes) → p ≡ n + o → drop n (write p bs ys) ≡ write o bs (drop n ys)
unfolding write
drop-write zero p o bs ys h = rw (let e : p ≡ o = omega arith in e)
drop-write (suc n) zero o bs ys h = absurd (omega arith)
drop-write (suc n) (suc p) o bs [] h = sym (write-nil o bs)
drop-write (suc n) (suc p) o bs (y ∷ ys) h = drop-write n p o bs ys (omega arith)

drop-overwrite_after :
    (n : ℕ) (bs ys : Bytes) → length bs ≤ n → drop n (overwrite bs ys) ≡ drop n ys
unfolding overwrite
drop-overwrite_after n [] ys h = refl
drop-overwrite_after zero (x ∷ xs) ys h = absurd (omega arith)
drop-overwrite_after (suc n) (x ∷ xs) [] h = refl
drop-overwrite_after (suc n) (x ∷ xs) (y ∷ ys) h = drop-overwrite_after n xs ys (omega arith)

drop-write_after :
    (n o : ℕ) (bs ys : Bytes) → o + length bs ≤ n → drop n (write o bs ys) ≡ drop n ys
unfolding write
drop-write_after n zero bs ys h = drop-overwrite_after n bs ys (omega arith)
drop-write_after zero (suc o) bs ys h = absurd (omega arith)
drop-write_after (suc n) (suc o) bs [] h = refl
drop-write_after (suc n) (suc o) bs (y ∷ ys) h = drop-write_after n o bs ys (omega arith)

-- A field that ends before the written bytes keeps its value.
pub field-write_before :
    (off n o : ℕ) (bs ys : Bytes) → off + n ≤ o → field off n (write o bs ys) ≡ field off n ys
field-write_before off n o bs ys h =
    rw (drop-write off o (o - off) bs ys (omega arith))
      (take-write n (o - off) bs (drop off ys) (omega arith))

-- So does one that begins behind them.
pub field-write_after :
    (off n o : ℕ) (bs ys : Bytes)
    → o + length bs ≤ off
    → field off n (write o bs ys) ≡ field off n ys
field-write_after off n o bs ys h = rw (drop-write_after off o bs ys h)

-- The field that is written at is overwritten as if it stood alone.
pub field-write_self :
    (o n : ℕ) (bs ys : Bytes) → field o n (write o bs ys) ≡ overwrite bs (field o n ys)
unfolding write
field-write_self o n bs ys =
    rw (drop-write o o 0 bs ys (omega arith)) (take-overwrite n bs (drop o ys))

pub take-write_within : (n o : ℕ) (bs ys : Bytes) → take n (write o bs ys) ≡ write o bs (take n ys)
unfolding write
take-write_within n zero bs ys = take-overwrite n bs ys
take-write_within zero (suc o) bs ys = refl
take-write_within (suc n) (suc o) bs [] = refl
take-write_within (suc n) (suc o) bs (y ∷ ys) = ap (◌∷◌ y) (take-write_within n o bs ys)
