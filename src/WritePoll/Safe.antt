-- ===== src/WritePoll/Safe.antt =====
-- What a call of `packet_write_poll` may come to, and how rounds follow one another.
use csbu_flo.Base.{◌≡◌, true, false, ◌⊎◌, inl, inr, List, [], ◌∷◌, Outcome, ok, stop, spin, ◌>>=◌}
use csbu_flo.Base.Int.{ℤ}
use csbu_flo.WritePoll.{
  is_supertrace, Shaper, Sender, Socket, written, broken, WriteError, write_failed,
  connection_closed,
}
use csbu_flo.WritePoll.Rounds.{Moved, Moved-trans, reshaped}

abbrev pub Any {ℓ} : {A : Type ℓ} → (A → Type 0) → List A → Type 0
Any P [] = ⊥
Any P (x ∷ xs) = P x ⊎ Any P xs

-- The socket's answer is the reason for a stop.
abbrev pub Blamed : WriteError → Socket → Type 0
Blamed write_failed socket = socket.result ≡ broken
Blamed connection_closed socket = socket.result ≡ written 0 false

-- Step round from `s`.
abbrev pub Step : Socket → Sender → Outcome WriteError (ℤ × Sender) → Type 0
Step socket s (ok (w, t)) = Moved s t
Step socket s (stop e) = Blamed e socket
Step socket s spin = ⊥

-- Some rounds from `s`: `Spins` holds if they may go on when the sockets run out.
abbrev pub Safe : Type 0 → List Socket → Sender → Outcome WriteError Sender → Type 0
Safe Spins sockets s (ok t) = Moved s t
Safe Spins sockets s (stop e) = Any (Blamed e) sockets
Safe Spins sockets s spin = Spins

-- When a call may still have rounds to go.
abbrev pub MaySpin : List Socket → Sender → Type 0
MaySpin sockets s = (is_supertrace s.shaper.stmode ≡ true) ⊎ (sockets ≡ [])

pub Safe-more :
    (Spins : Type 0) (socket : Socket) (sockets : List Socket) (s t : Sender)
    (o : Outcome WriteError Sender)
    → Moved s t
    → Safe Spins sockets t o
    → Safe Spins (socket ∷ sockets) s o
Safe-more Spins socket sockets s t (ok u) m h = Moved-trans m h
Safe-more Spins socket sockets s t (stop e) m h = inr h
Safe-more Spins socket sockets s t spin m h = h

pub Safe-then :
    (Spins : Type 0) (socket : Socket) (sockets : List Socket) (s : Sender)
    (o : Outcome WriteError (ℤ × Sender)) (k : ℤ → Sender → Outcome WriteError Sender)
    → Step socket s o
    → ((w : ℤ) (t : Sender) → t.session.extra_pad ≡ 0 → Safe Spins sockets t (k w t))
    → Safe Spins (socket ∷ sockets) s (o >>= λ r. k r.0 r.1)
Safe-then Spins socket sockets s (ok (w, t)) k m rest =
    Safe-more Spins socket sockets s t (k w t) m (rest w t m.none_extra)
Safe-then Spins socket sockets s (stop e) k h rest = inl h
Safe-then Spins socket sockets s spin k h rest = absurd h

-- A change of the static variables at the end.
pub Safe-shaper :
    (Spins : Type 0) (sockets : List Socket) (s : Sender) (f : Sender → Shaper)
    → ((t : Sender) → (f t).stmode ≡ t.shaper.stmode)
    → ((t : Sender) → (f t).sent_tend ≡ t.shaper.sent_tend)
    → ((t : Sender) → (f t).packet_tau ≡ t.shaper.packet_tau)
    → (o : Outcome WriteError Sender) → Safe Spins sockets s o
    → Safe Spins sockets s (o >>= λ t. ok (record t { shaper = f t }))
Safe-shaper Spins sockets s f mode tend tau (ok t) m =
    Moved-trans m (reshaped t (f t) (mode t) (tend t) (tau t) m.none_extra)
Safe-shaper Spins sockets s f mode tend tau (stop e) h = h
Safe-shaper Spins sockets s f mode tend tau spin h = h

pub Safe-before :
    (Spins : Type 0) (sockets : List Socket) (s t : Sender) (o : Outcome WriteError Sender)
    → Moved s t
    → Safe Spins sockets t o
    → Safe Spins sockets s o
Safe-before Spins sockets s t (ok u) m h = Moved-trans m h
Safe-before Spins sockets s t (stop e) m h = h
Safe-before Spins sockets s t spin m h = h
