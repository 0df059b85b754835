-- ===== src/Service/Workers.antt =====
-- The workers and threads that a service makes and deletes. See Service/service.cpp.
use helpz.Prelude.{
  ℕ, ◌+◌, ◌≡◌, refl, Bool, true, false, ◌&&◌, Option, none, some, ◌>>=◌, List, [], ◌∷◌, ◌++◌, arith,
  ◌==◌, if◌then◌else◌, subst, some-injective, Option-cases, inl, inr, ◌∙◌, bind-some, ap,
}
use helpz.Service.{
  Effect, Service, Program, ServiceCall, starts, stops, commands, restarts, commands_queued,
  worker_created, worker_deleted, create_worker, make_object, destroy_object, destroy_service,
  start, stop, process_commands, restart, call, calls,
}

unfoldable pub total : (Effect → ℕ) → List Effect → ℕ
total f [] = 0
total f (e ∷ es) = f e + total f es

pub total-append :
    (f : Effect → ℕ) (xs ys : List Effect) → total f (xs ++ ys) ≡ total f xs + total f ys
unfolding total
total-append f [] ys = omega arith
total-append f (x ∷ xs) ys = omega (arith, total-append f xs ys)

-- Whether an effect makes or deletes the worker of a number.
abbrev pub makes : ℕ → Effect → ℕ
makes n (worker_created m) = if m == n then 1 else 0
makes n _ = 0

abbrev pub deletes : ℕ → Effect → ℕ
deletes n (worker_deleted m) = if m == n then 1 else 0
deletes n _ = 0

abbrev pub is_worker : ℕ → Option ℕ → ℕ
is_worker n none = 0
is_worker n (some m) = if m == n then 1 else 0

-- What is done while the worker goes from one to another.
abbrev pub Balanced : ℕ → List Effect → Option ℕ → Option ℕ → Type 0
Balanced n effects before after =
    total (makes n) effects + is_worker n before ≡ total (deletes n) effects + is_worker n after

module _ (program : Program) where
  call-Balanced :
      (n : ℕ) (c : ServiceCall) (b : Service) (r : Service × List Effect)
      → call program c b ≡ some r
      → Balanced n r.1 b.service r.0.service
  unfolding call start stop restart make_object create_worker destroy_service destroy_object
      process_commands total
  call-Balanced n (starts quits) b r e =
      subst (λ (q : Service × List Effect). Balanced n q.1 b.service q.0.service)
        (some-injective _ _ e) (ground arith)
  call-Balanced n (stops quits) b r e =
      subst (λ (q : Service × List Effect). Balanced n q.1 b.service q.0.service)
        (some-injective _ _ e) (ground arith)
  call-Balanced n (commands list) b r e = elim (Option-cases b.service) [
    | inl nobody ↦ ground (arith, nobody, e)
    | inr (m, there) ↦
        let same : (b, commands_queued m list ∷ []) ≡ r = ground (arith, there, e) in
        subst (λ (q : Service × List Effect). Balanced n q.1 b.service q.0.service) same refl
  ]
  call-Balanced n restarts b r e =
      subst (λ (q : Service × List Effect). Balanced n q.1 b.service q.0.service)
        (some-injective _ _ e) (ground arith)

  Balanced-append :
      (n : ℕ) (xs ys : List Effect) (a b c : Option ℕ)
      → Balanced n xs a b
      → Balanced n ys b c
      → Balanced n (xs ++ ys) a c
  Balanced-append n xs ys a b c h k =
      omega (arith, total-append (makes n) xs ys, total-append (deletes n) xs ys)

  calls-cons :
      (c : ServiceCall) (cs : List ServiceCall) (b : Service) (r : Service × List Effect)
      → calls program (c ∷ cs) b ≡ some r
      → (x : Service × List Effect) × (call program c b ≡ some x)
        × (y : Service × List Effect) × (calls program cs x.0 ≡ some y)
        × ((y.0, x.1 ++ y.1) ≡ r)
  unfolding calls
  calls-cons c cs b r e =
      let (x, first, more) = bind-some (call program c b) _ r e in
      let (y, rest, same) = bind-some (calls program cs x.0) _ r more in
      (x, first, y, rest, some-injective _ _ same)

  -- After any calls of a service each worker was deleted as often as it was made, but the one that the
  -- service has then, which was made once more unless the service had it before.
  pub calls-Balanced :
      (n : ℕ) (cs : List ServiceCall) (b : Service) (r : Service × List Effect)
      → calls program cs b ≡ some r
      → Balanced n r.1 b.service r.0.service
  unfolding calls total
  calls-Balanced n [] b r e =
      subst (λ (q : Service × List Effect). Balanced n q.1 b.service q.0.service)
        (some-injective _ _ e) refl
  calls-Balanced n (c ∷ cs) b r e =
      let (x, first, y, rest, same) = calls-cons c cs b r e in
      subst (λ (q : Service × List Effect). Balanced n q.1 b.service q.0.service) same
        (Balanced-append n x.1 y.1 _ _ _ (call-Balanced n c b x first)
          (calls-Balanced n cs x.0 y rest))

  abbrev has_service : Option ℕ → Bool
  has_service none = false
  has_service (some n) = true

  abbrev returned : Option (Service × List Effect) → Bool
  returned none = false
  returned (some r) = true

  returned-then :
      (m : Option (Service × List Effect)) (effects : List Effect)
      → returned (m >>= λ rest. some (rest.0, effects ++ rest.1)) ≡ returned m
  returned-then none effects = refl
  returned-then (some r) effects = refl

  -- Whether commands come only while there is a service.
  unfoldable pub accepted : Bool → List ServiceCall → Bool
  accepted has [] = true
  accepted has (starts quits ∷ cs) = accepted true cs
  accepted has (stops quits ∷ cs) = accepted false cs
  accepted has (commands list ∷ cs) = has && accepted has cs
  accepted has (restarts ∷ cs) = accepted has cs

  -- Calls of a service end exactly if commands come only while there is one, from a start to a stop.
  pub calls_lem :
      (cs : List ServiceCall) (b : Service)
      → returned (calls program cs b) ≡ accepted (has_service b.service) cs
  unfolding calls accepted call start stop restart process_commands
  calls_lem [] b = refl
  calls_lem (starts quits ∷ cs) b =
      returned-then (calls program cs (start program quits b).0) (start program quits b).1
      ∙ calls_lem cs (start program quits b).0
  calls_lem (stops quits ∷ cs) b =
      returned-then (calls program cs (stop program quits b).0) (stop program quits b).1
      ∙ calls_lem cs (stop program quits b).0
  calls_lem (commands list ∷ cs) b = elim (Option-cases b.service) [
    | inl nobody ↦ ground (arith, nobody)
    | inr (m, there) ↦
        let queued : process_commands program list b ≡ some (b, commands_queued m list ∷ []) =
          ground (arith, there) in
        ap
          (λ o.
            returned
              (o >>= λ one. calls program cs one.0 >>= λ rest. some (rest.0, one.1 ++ rest.1)))
          queued
        ∙ (returned-then (calls program cs b) (commands_queued m list ∷ [])
            ∙ (calls_lem cs b ∙ ground (arith, there)))
  ]
  calls_lem (restarts ∷ cs) b =
      returned-then (calls program cs (restart program b).0) (restart program b).1
      ∙ (calls_lem cs (restart program b).0
          ∙ ap (λ has. accepted has cs)
              (let e : has_service (restart program b).0.service ≡ has_service b.service =
                  ground arith in
                e))
