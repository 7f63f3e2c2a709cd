-- ===== src/Roster/Service/Waiting.antt =====
-- What a mutation's wait answers, against the states that its turns read: at the call and at each
-- broadcast before its timer.
use xform.Base.{String, Bool, true, ◌&&◌, ◌||◌, not, List, [], ◌∷◌, string_eq, ◌≡◌, refl, arith}
use xform.Base.Lists.{is_empty}
use xform.Base.Assoc.{lookup}
use xform.Roster.{synced, failed}
use xform.Roster.Service.{Service, Look, wait_settled, settled_answer, sync, is_some, or_false}

-- What Sync reads is calm.
abbrev pub is_calm : Look → Bool
is_calm look = is_empty look.1.queue && is_empty look.1.failures

abbrev has_failure : Service → Bool
has_failure s = not (is_empty s.failures)

-- A failure in what the turn reads, itself or by Sync.
abbrev pub reads_failure : Look → Bool
reads_failure look = has_failure look.0 || has_failure look.1

abbrev awaits : String → Service → Bool
awaits email s = is_some (lookup email s.queue)

-- One of the turns reads such states.
unfoldable pub seen : (Look → Bool) → Look → List Look → Bool
seen p look [] = p look
seen p look (next ∷ rest) = p look || seen p next rest

has_failure-failed :
    (email : String) (s : Service)
    → or_false (lookup email s.failures) ≡ true
    → has_failure s ≡ true
unfolding lookup
has_failure-failed email s h = go s.failures h
  where
    go : (m : List (String × Bool)) → or_false (lookup email m) ≡ true → not (is_empty m) ≡ true
    go [] h = ground (arith, h)
    go (e ∷ m) h = refl

-- What a mutation answers after its wait is what one of its turns read: synced comes from a turn
-- whose Sync read a state in which nothing is queued and nobody is failed, failed from a turn that
-- read, itself or by Sync, a state in which somebody is.
pub wait_settled-seen :
    (email : String) (look : Look) (later : List Look)
    → (wait_settled email look later ≡ synced → seen is_calm look later ≡ true)
      × (wait_settled email look later ≡ failed → seen reads_failure look later ≡ true)
unfolding wait_settled sync seen settled_answer
wait_settled-seen email look [] =
    (λ h. ground (arith, h), λ h. ground (arith, h, has_failure-failed email look.0))
wait_settled-seen email look (next ∷ rest) =
    let ih = wait_settled-seen email next rest in
    (λ h. ground (arith, h, ih.0), λ h. ground (arith, h, ih.1, has_failure-failed email look.0))
