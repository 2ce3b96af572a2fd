-- ===== src/Pool/Sessions.antt =====
-- session.go: which Sessions are dead, and how the ids of the cookies find a Session.
use jaws.Base.{
  ℕ, List, [], ◌∷◌, Option, none, some, Bool, true, false, not, ◌&&◌, ◌||◌, ltb, if◌then◌else◌,
}
use jaws.Addr.{Addr, equal_ip}
use jaws.Pool.{Jaws, Session}

is_empty : List ℕ → Bool
is_empty [] = true
is_empty (x ∷ xs) = false

-- isDeadLocked.
unfoldable pub is_dead : Session → ℕ → Bool
unfolding is_empty
is_dead sess now = sess.marked_dead || (is_empty sess.requests && ltb sess.deadline now)

-- getSessionByIDLocked.
unfoldable pub get_session_by_id : Jaws → ℕ → Addr → ℕ → Option ℕ
unfolding is_dead
get_session_by_id jw id ip now = elim (jw.sessions id) [
  | none ↦ none
  | some sid ↦
      if equal_ip ip (jw.session_heap sid).remote_ip && not (is_dead (jw.session_heap sid) now)
      then some sid
      else none
]

-- getSessionLocked: the first Session that an id finds.
unfoldable pub get_session : Jaws → List ℕ → Addr → ℕ → Option ℕ
unfolding get_session_by_id
get_session jw [] ip now = none
get_session jw (id ∷ ids) ip now = elim (get_session_by_id jw id ip now) [
  | none ↦ get_session jw ids ip now
  | some sid ↦ some sid
]
