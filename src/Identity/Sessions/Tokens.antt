-- ===== src/Identity/Sessions/Tokens.antt =====
-- Counting the usable tokens of a session under the updates of backend/mizan/apps/identity/services.py.
use mizan_labs_v.Prelude.{
  ℕ, ◌+◌, ◌≤◌, ◌≡◌, refl, Bool, false, ◌&&◌, inl, inr, List, [], ◌∷◌, ◌++◌, arith, ◌==◌,
  if◌then◌else◌, Bool-cases, All,
}
use mizan_labs_v.Identity.{RefreshToken}
use mizan_labs_v.Identity.Sessions.{
  update_rows, count_rows, in_session, is_usable, revoke, revoke_session, revoke_all,
}

abbrev pub in_use : ℕ → RefreshToken → Bool
in_use session_id t = in_session session_id t && is_usable t

-- The usable tokens of a session.
unfoldable pub live : ℕ → List RefreshToken → ℕ
unfolding count_rows
live session_id = count_rows (in_use session_id)

pub live-append :
    (s : ℕ) (ts : List RefreshToken) (t : RefreshToken)
    → live s (ts ++ (t ∷ [])) ≡ live s ts + (if in_use s t then 1 else 0)
unfolding live count_rows
live-append s [] t = ground arith
live-append s (u ∷ ts) t = let rest = live-append s ts t in ground arith

-- An update that uses up what it changes leaves no more of them.
pub live-update_rows :
    (s : ℕ) (p : RefreshToken → Bool) (f : RefreshToken → RefreshToken) (ts : List RefreshToken)
    → ((t : RefreshToken) → is_usable (f t) ≡ false)
    → live s (update_rows p f ts) ≤ live s ts
unfolding live count_rows update_rows
live-update_rows s p f [] h = omega arith
live-update_rows s p f (t ∷ ts) h =
    let rest = live-update_rows s p f ts h in let gone = h t in ground arith

pub All-update_rows {ℓ} :
    (P : RefreshToken → Type ℓ) (p : RefreshToken → Bool) (f : RefreshToken → RefreshToken)
    (ts : List RefreshToken)
    → ((t : RefreshToken) → P t → P (f t))
    → All P ts
    → All P (update_rows p f ts)
unfolding update_rows
All-update_rows P p f [] k h = tt
All-update_rows P p f (t ∷ ts) k h = elim (Bool-cases (p t)) [
  | inl e ↦ rw e (k t h.0, All-update_rows P p f ts k h.1)
  | inr e ↦ rw e (h.0, All-update_rows P p f ts k h.1)
]

revoked_unusable : (now : ℕ) (t : RefreshToken) → is_usable (revoke now t) ≡ false
revoked_unusable now t = ground arith

pub live-revoke_session_le :
    (s now session_id : ℕ) (ts : List RefreshToken)
    → live s (revoke_session now session_id ts) ≤ live s ts
unfolding revoke_session
live-revoke_session_le s now session_id ts =
    live-update_rows s _ (revoke now) ts (revoked_unusable now)

pub live-revoke_all_le :
    (s now user_id : ℕ) (ts : List RefreshToken) → live s (revoke_all now user_id ts) ≤ live s ts
unfolding revoke_all
live-revoke_all_le s now user_id ts = live-update_rows s _ (revoke now) ts (revoked_unusable now)

pub live-revoke_session :
    (s now : ℕ) (ts : List RefreshToken) → live s (revoke_session now s ts) ≡ 0
unfolding revoke_session live count_rows update_rows
live-revoke_session s now [] = refl
live-revoke_session s now (t ∷ ts) = let rest = live-revoke_session s now ts in ground arith

-- No token of a user is usable after the revocation of all.
pub All-revoke_all :
    (now user_id : ℕ) (ts : List RefreshToken)
    → All (λ t. (t.user_id == user_id && is_usable t) ≡ false) (revoke_all now user_id ts)
unfolding revoke_all update_rows
All-revoke_all now user_id [] = tt
All-revoke_all now user_id (t ∷ ts) = (ground arith, All-revoke_all now user_id ts)
