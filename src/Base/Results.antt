-- ===== src/Base/Results.antt =====
-- What a Go function with an `error` result comes to: a value, one of the program's errors, or a
-- run-time panic (an index or slice out of range, a nil pointer).
use mathlib.Core.Logic.{◌⊎◌, inl, inr}
use mathlib.Core.Path.{◌≡◌, refl}

pub data Error : Type 0 where
  -- inetdiag/structs.go and netlink/netlink_linux.go
  idm_parse_failed bad_pid bad_sequence bad_msg_data unknown_af : Error
  not_type20 parse_failed einval : Error
  -- saver/saver.go: `errors.New("Cookie = 0")`, `ErrNoMarshallers`, and what `Rotate` returns
  cookie_zero no_marshallers mkdir_failed create_failed : Error
  -- snapshot/snapshot.go, and `io.EOF`
  empty_record eof unexpected_eof : Error
  -- what the netlink socket and the event socket report
  socket_failed : Error

pub data Result {ℓ} (A : Type ℓ) : Type ℓ where
  ok : A → Result A
  err : Error → Result A
  panic : Result A

infixl 5 ◌>>=◌
abbrev pub ◌>>=◌ {ℓ κ} : {A : Type ℓ} {B : Type κ} → Result A → (A → Result B) → Result B
panic >>= next = panic
err e >>= next = err e
ok value >>= next = next value

-- What a chain that succeeds has gone through.
pub >>=-eq-ok {ℓ κ} :
    {A : Type ℓ} {B : Type κ} {out : B} (r : Result A) (next : A → Result B)
    → (r >>= next) ≡ ok out
    → (value : A) × (r ≡ ok value) × (next value ≡ ok out)
>>=-eq-ok panic next h = cc
>>=-eq-ok (err e) next h = cc
>>=-eq-ok (ok value) next h = (value, refl, h)

pub ok-injective {ℓ} : {A : Type ℓ} {a b : A} → ok a ≡ ok b → a ≡ b
ok-injective h = cc h

pub Result-cases {ℓ} :
    {A : Type ℓ} (r : Result A) → ((a : A) × (r ≡ ok a)) ⊎ ((e : Error) × (r ≡ err e)) ⊎ (r ≡ panic)
Result-cases (ok a) = inl (a, refl)
Result-cases (err e) = inr (inl (e, refl))
Result-cases panic = inr (inr refl)
