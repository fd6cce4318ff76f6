-- ===== src/Main/Events.antt =====
-- What ends the command, or does not: the events of the servers, the handlers in flight, and the peers.
use text.Mathlib.TextEquality.{eq_iff}
use distributed_grpc_task_ma.Prelude.{
  ◌≡◌, ◌≢◌, refl, String, true, List, [], ◌∷◌, none, str_eq, arith, Bool-cases, Option-cases, inl,
  inr, ◌⊎◌,
}
use distributed_grpc_task_ma.Prelude.Effects.{Error, new, wrap, ok, err}
use distributed_grpc_task_ma.Prelude.Outcome.{Outcome, done, panics, hangs, out_of_fuel}
use distributed_grpc_task_ma.Main.{
  ServerEvent, http_ended, grpc_ended, signalled, fatal_end, first_fatal, is_signalled,
  all_returned, peer_list,
}

pub data Among {A : Type 0} (x : A) : List A → Type 0 where
  first : {rest : List A} → Among x (x ∷ rest)
  later : {y : A} {rest : List A} → Among x rest → Among x (y ∷ rest)

-- no server ends with an error, but for the one that says that the HTTP server was closed
pub record IsQuiet (events : List ServerEvent) : Type 0 where
  pub http : (e : Error) → Among (http_ended (err e)) events → e ≡ new "http: Server closed"
  pub grpc : (e : Error) → ¬ Among (grpc_ended (err e)) events

pub is_signalled-Among :
    (events : List ServerEvent) → is_signalled events ≡ true → Among signalled events
unfolding is_signalled
is_signalled-Among [] e = absurd (ground (arith))
is_signalled-Among (signalled ∷ rest) e = first
is_signalled-Among (http_ended r ∷ rest) e = later (is_signalled-Among rest e)
is_signalled-Among (grpc_ended r ∷ rest) e = later (is_signalled-Among rest e)

fatal_end-none :
    (x : ServerEvent) (rest : List ServerEvent)
    → first_fatal (x ∷ rest) ≡ none
    → (fatal_end x ≡ none) × (first_fatal rest ≡ none)
unfolding first_fatal
fatal_end-none x rest e = elim (Option-cases (fatal_end x)) [
  | inl k ↦ (k, rw (k, first_fatal) at e)
  | inr (f, k) ↦ let e' = rw (k, first_fatal) at e in absurd (ground (arith))
]

http-closed : (e : Error) → fatal_end (http_ended (err e)) ≡ none → e ≡ new "http: Server closed"
unfolding fatal_end
http-closed (new text) k = ground (arith, eq_iff text "http: Server closed")
http-closed (wrap text e) k = absurd (ground (arith))

pub first_fatal-http :
    (events : List ServerEvent) (e : Error)
    → first_fatal events ≡ none
    → Among (http_ended (err e)) events
    → e ≡ new "http: Server closed"
first_fatal-http [] e k a = elim a [ ]
first_fatal-http (x ∷ rest) e k first = http-closed e (fatal_end-none _ rest k).0
first_fatal-http (x ∷ rest) e k (later a) = first_fatal-http rest e (fatal_end-none x rest k).1 a

pub first_fatal-grpc :
    (events : List ServerEvent) (e : Error)
    → first_fatal events ≡ none
    → ¬ Among (grpc_ended (err e)) events
unfolding fatal_end
first_fatal-grpc [] e k a = elim a [ ]
first_fatal-grpc (x ∷ rest) e k first =
    let k' = (fatal_end-none (grpc_ended (err e)) rest k).0 in ground (arith)
first_fatal-grpc (x ∷ rest) e k (later a) = first_fatal-grpc rest e (fatal_end-none x rest k).1 a

pub all_returned-done :
    {A : Type 0} (os : List (Outcome A)) (o : Outcome A)
    → all_returned os ≡ true
    → Among o os
    → (a : A) × (o ≡ done a)
unfolding all_returned
all_returned-done [] o e x = elim x [ ]
all_returned-done (done a ∷ rest) o e first = (a, refl)
all_returned-done (panics ∷ rest) o e x = absurd (ground (arith))
all_returned-done (hangs ∷ rest) o e x = absurd (ground (arith))
all_returned-done (out_of_fuel ∷ rest) o e x = absurd (ground (arith))
all_returned-done (done a ∷ rest) o e (later x) = all_returned-done rest o e x

-- the peers that the flag stands for: none, or the whole text as one
abbrev pub IsPeers : String → List String → Type 0
IsPeers flag peers = ((flag ≡ "") × (peers ≡ [])) ⊎ ((flag ≢ "") × (peers ≡ flag ∷ []))

pub peer_list-IsPeers : (flag : String) → IsPeers flag (peer_list flag)
unfolding peer_list
peer_list-IsPeers flag = elim (Bool-cases (str_eq flag "")) [
  | inl e ↦ inl ((eq_iff flag "").0 e, rw (e) refl)
  | inr e ↦ inr (λ k. let k' = (eq_iff flag "").1 k in ground (arith), rw (e) refl)
]

pub Among-is_signalled :
    (events : List ServerEvent) → Among signalled events → is_signalled events ≡ true
unfolding is_signalled
Among-is_signalled [] a = elim a [ ]
Among-is_signalled (signalled ∷ rest) a = refl
Among-is_signalled (http_ended r ∷ rest) (later a) = Among-is_signalled rest a
Among-is_signalled (grpc_ended r ∷ rest) (later a) = Among-is_signalled rest a

IsQuiet-later : (x : ServerEvent) (rest : List ServerEvent) → IsQuiet (x ∷ rest) → IsQuiet rest
IsQuiet-later x rest q = record {
  http = λ e a. q.http e (later a);
  grpc = λ e a. q.grpc e (later a);
}

quiet-fatal_end :
    (x : ServerEvent) (rest : List ServerEvent) → IsQuiet (x ∷ rest) → fatal_end x ≡ none
unfolding fatal_end
quiet-fatal_end (http_ended (ok u)) rest q = refl
quiet-fatal_end (http_ended (err e)) rest q = rw (q.http e first) refl
quiet-fatal_end (grpc_ended (ok u)) rest q = refl
quiet-fatal_end (grpc_ended (err e)) rest q = absurd (q.grpc e first)
quiet-fatal_end signalled rest q = refl

pub quiet-first_fatal : (events : List ServerEvent) → IsQuiet events → first_fatal events ≡ none
unfolding first_fatal
quiet-first_fatal [] q = refl
quiet-first_fatal (x ∷ rest) q =
    rw (quiet-fatal_end x rest q, first_fatal) (quiet-first_fatal rest (IsQuiet-later x rest q))

pub done-all_returned :
    {A : Type 0} (os : List (Outcome A))
    → ((o : Outcome A) → Among o os → (a : A) × (o ≡ done a))
    → all_returned os ≡ true
unfolding all_returned
done-all_returned [] h = refl
done-all_returned (done a ∷ rest) h = done-all_returned rest λ o x. h o (later x)
done-all_returned (panics ∷ rest) h = let (a, e) = h panics first in ground (arith)
done-all_returned (hangs ∷ rest) h = let (a, e) = h hangs first in ground (arith)
done-all_returned (out_of_fuel ∷ rest) h = let (a, e) = h out_of_fuel first in ground (arith)

pub IsPeers-peer_list :
    (flag : String) (peers : List String) → IsPeers flag peers → peers ≡ peer_list flag
unfolding peer_list
IsPeers-peer_list flag peers (inl (e, p)) = rw (e, p) refl
IsPeers-peer_list flag peers (inr (n, p)) = elim (Bool-cases (str_eq flag "")) [
  | inl k ↦ absurd (n ((eq_iff flag "").0 k))
  | inr k ↦ rw (p, k) refl
]
