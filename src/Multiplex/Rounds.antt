-- ===== src/Multiplex/Rounds.antt =====
-- The loop over the descriptors: how many rounds are enough.
use pc_communication_protoco.Prelude.{
  ℕ, zero, suc, ◌+◌, ◌≤◌, ◌<◌, ◌≡◌, refl, ap, false, some, List, Text, arith, leb, if◌then◌else◌,
  among, Run, ok, died, fault, ◌>>=◌, Ends,
}
use pc_communication_protoco.Multiplex.{Server, Events, log, handle, scan}
use pc_communication_protoco.Multiplex.Kept.{if-lem, handle-P}

-- A descriptor set has room for `fdmax`.
abbrev pub IsSmall : Server → Type 0
IsSmall s = s.fdmax < 1024

abbrev pub AcceptsSmall : Events → Type 0
AcceptsSmall events = (fd : ℕ) → events.accepted ≡ some fd → fd < 1024

log-IsSmall : (s : Server) (fd : ℕ) (m : Text) → IsSmall s → IsSmall (log s fd m)
unfolding log
log-IsSmall s fd m h = h

handle-IsSmall :
    (sockfd : ℕ) (events : Events) (i : ℕ) (s : Server)
    → AcceptsSmall events
    → IsSmall s
    → Ends IsSmall (handle sockfd events i s)
handle-IsSmall sockfd events i s small h =
    handle-P IsSmall log-IsSmall sockfd events i s (λ t k. k)
      (λ fd e free. let below = small fd e in ground arith) h

module _ {ℓ κ ι} {A : Type ℓ} {B : Type κ} where
  >>=-same :
      (P : A → Type ι) (m : Run A) (f g : A → Run B)
      → Ends P m
      → ((a : A) → P a → f a ≡ g a)
      → (m >>= f) ≡ (m >>= g)
  >>=-same P (ok a) f g h same = same a h
  >>=-same P died f g h same = refl
  >>=-same P fault f g h same = refl

-- Two numbers of rounds that both reach the end of a descriptor set.
scan-same :
    (sockfd : ℕ) (events : Events) (tmp_fds : List ℕ) (left left' i : ℕ) (s : Server)
    → AcceptsSmall events
    → IsSmall s
    → 1024 ≤ left + i
    → 1024 ≤ left' + i
    → scan sockfd events tmp_fds left i s ≡ scan sockfd events tmp_fds left' i s
unfolding scan
scan-same sockfd events tmp_fds zero zero i s small h enough enough' = refl
scan-same sockfd events tmp_fds zero (suc left') i s small h enough enough' =
    let over : leb i s.fdmax ≡ false = ground arith in rw over refl
scan-same sockfd events tmp_fds (suc left) zero i s small h enough enough' =
    let over : leb i s.fdmax ≡ false = ground arith in rw over refl
scan-same sockfd events tmp_fds (suc left) (suc left') i s small h enough enough' =
    let step : Run Server = if among i tmp_fds then handle sockfd events i s else ok s in
    let step-small : Ends IsSmall step =
      if-lem (Ends IsSmall) (among i tmp_fds) (handle sockfd events i s) (ok s)
        (handle-IsSmall sockfd events i s small h) h in
    ap (λ (r : Run Server). if leb i s.fdmax then r else ok s)
      (>>=-same IsSmall step _ _ step-small λ s' h'.
        scan-same sockfd events tmp_fds left left' (suc i) s' small h' (omega (arith, enough))
          (omega (arith, enough')))

-- With `fdmax` and every accepted descriptor below 1024, the loop of the multiplexing server over
-- the descriptors has the same outcome with any number of rounds from 1024 on, so that 1024 rounds
-- are enough for it to end.
pub scan-enough :
    (sockfd : ℕ) (events : Events) (tmp_fds : List ℕ) (rounds : ℕ) (s : Server)
    → AcceptsSmall events
    → s.fdmax < 1024
    → 1024 ≤ rounds
    → scan sockfd events tmp_fds rounds 0 s ≡ scan sockfd events tmp_fds 1024 0 s
scan-enough sockfd events tmp_fds rounds s small h enough =
    scan-same sockfd events tmp_fds rounds 1024 0 s small h (omega (arith, enough)) (omega arith)
