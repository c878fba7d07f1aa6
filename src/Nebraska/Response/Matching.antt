-- ===== src/Nebraska/Response/Matching.antt =====
-- The payloads that the responses to one request carry, for the loop of GetXMLString in
-- nebraska/nebraska.py.
use cros_dev_util.Base.{
  inl, inr, ℕ, ◌≡◌, refl, subst, Bool, true, false, Option, none, some, List, [], ◌∷◌, arith, elem,
  All, Bool-cases,
}
use cros_dev_util.Nebraska.Request.{AppRequest, RequestType, install, update, event}
use cros_dev_util.Nebraska.AppIndex.{AppData, find_app}
use cros_dev_util.Nebraska.AppIndex.Find.{Serves, find_app_sound, find_app-none}
use cros_dev_util.Nebraska.Properties.{NebraskaProps, ResponseProps}
use cros_dev_util.Nebraska.Response.{AppResponse, find_payload, new_app_response, app_responses}

-- The payload's object joins the set exactly where there is a payload.
abbrev pub Added : List ℕ → Option AppData → List ℕ → Type 0
Added matched none matched' = matched' ≡ matched
Added matched (some a) matched' = (elem a.obj matched ≡ false) × (matched' ≡ a.obj ∷ matched)

Added-cases :
    (matched matched' : List ℕ) (o : Option AppData)
    → (o ≡ none → matched' ≡ matched)
    → ((a : AppData) → o ≡ some a → (elem a.obj matched ≡ false) × (matched' ≡ a.obj ∷ matched))
    → Added matched o matched'
Added-cases matched matched' none n s = n refl
Added-cases matched matched' (some a) n s = s a refl

find_app-Added :
    (index : List AppData) (r : AppRequest) (matched : List ℕ) (fp : Option Bool) (ig : Bool)
    → Added matched (find_app index r matched fp ig).0 (find_app index r matched fp ig).1
find_app-Added index r matched fp ig =
    Added-cases matched _ _ (find_app-none index r matched fp ig)
      λ a e. let (serves, grown) = find_app_sound index r matched fp ig a e in (serves.fresh, grown)

find_payload-Added :
    (t : RequestType) (r : AppRequest) (props : NebraskaProps) (rp : ResponseProps)
    (matched : List ℕ)
    → Added matched (find_payload t r props rp matched).0 (find_payload t r props rp matched).2
unfolding find_payload
find_payload-Added install r props rp matched = elim (Bool-cases r.has_update_check) [
  | inl check ↦ simp check (find_app-Added props.install_app_index r matched (some true) false)
  | inr bare ↦ simp bare refl
]
find_payload-Added update r props rp matched =
    find_app-Added props.update_app_index r matched rp.full_payload props.ignore_appid
find_payload-Added event r props rp matched = refl

new_app_response-Added :
    (r : AppRequest) (props : NebraskaProps) (rp : ResponseProps) (matched : List ℕ)
    → Added matched
        (new_app_response r props rp matched).0.app_data
        (new_app_response r props rp matched).1
unfolding new_app_response
new_app_response-Added r props rp matched = elim (Bool-cases rp.no_update) [
  | inl off ↦ simp off refl
  | inr on ↦ simp on (find_payload-Added r.request_type r props rp matched)
]

abbrev pub payload_cons : Option AppData → List ℕ → List ℕ
payload_cons none rest = rest
payload_cons (some app) rest = app.obj ∷ rest

-- The payloads of a list of responses, by their objects.
abbrev pub payloads : List AppResponse → List ℕ
payloads [] = []
payloads (a ∷ rest) = payload_cons a.app_data (payloads rest)

abbrev pub Distinct : List ℕ → Type 0
Distinct [] = Unit
Distinct (x ∷ xs) = (elem x xs ≡ false) × Distinct xs

abbrev Avoids : List ℕ → List ℕ → Type 0
Avoids matched = All (λ x. elem x matched ≡ false)

Avoids-cons :
    (n : ℕ) (matched xs : List ℕ)
    → Avoids (n ∷ matched) xs
    → (elem n xs ≡ false) × Avoids matched xs
Avoids-cons n matched [] h = (refl, tt)
Avoids-cons n matched (x ∷ xs) h =
    let (fresh, rest) = Avoids-cons n matched xs h.1 in (ground arith, (ground arith, rest))

Distinct-cons :
    (o : Option AppData) (matched matched' rest : List ℕ)
    → Added matched o matched'
    → Distinct rest
    → Avoids matched' rest
    → Distinct (payload_cons o rest) × Avoids matched (payload_cons o rest)
Distinct-cons none matched matched' rest e d v = (d, subst (λ m. Avoids m rest) e v)
Distinct-cons (some a) matched matched' rest (fresh, e) d v =
    let (apart, kept) = Avoids-cons a.obj matched rest (subst (λ m. Avoids m rest) e v) in
    ((apart, d), (fresh, kept))

app_responses-Distinct :
    (rs : List AppRequest) (props : NebraskaProps) (rp : ResponseProps) (matched : List ℕ)
    → Distinct (payloads (app_responses rs props rp matched))
      × Avoids matched (payloads (app_responses rs props rp matched))
unfolding app_responses
app_responses-Distinct [] props rp matched = (tt, tt)
app_responses-Distinct (r ∷ rs) props rp matched =
    let matched' = (new_app_response r props rp matched).1 in
    let (d, v) = app_responses-Distinct rs props rp matched' in
    Distinct-cons (new_app_response r props rp matched).0.app_data matched matched' _
      (new_app_response-Added r props rp matched) d v

-- No payload is given to two apps of one request.
pub payloads-Distinct :
    (rs : List AppRequest) (props : NebraskaProps) (rp : ResponseProps)
    → Distinct (payloads (app_responses rs props rp []))
payloads-Distinct rs props rp = (app_responses-Distinct rs props rp []).0

-- What one response carries for a request: nothing, or a payload that serves the request from the
-- index for its type. An install is served full payloads from the install index and never by
-- ignoring the App ID.
pub data Served (r : AppRequest) (props : NebraskaProps) (rp : ResponseProps) (matched : List ℕ)
    : Option AppData → Type 0 where
  nothing : Served r props rp matched none
  updated :
      {a : AppData}
      → r.request_type ≡ update
      → rp.no_update ≡ false
      → Serves props.update_app_index r matched rp.full_payload props.ignore_appid a
      → Served r props rp matched (some a)
  installed :
      {a : AppData}
      → r.request_type ≡ install
      → rp.no_update ≡ false
      → r.has_update_check ≡ true
      → Serves props.install_app_index r matched (some true) false a
      → Served r props rp matched (some a)

Served-cases :
    (r : AppRequest) (props : NebraskaProps) (rp : ResponseProps) (matched : List ℕ)
    (o : Option AppData)
    → ((a : AppData) → o ≡ some a → Served r props rp matched (some a))
    → Served r props rp matched o
Served-cases r props rp matched none h = nothing
Served-cases r props rp matched (some a) h = h a refl

find_payload-Served :
    (t : RequestType) (r : AppRequest) (props : NebraskaProps) (rp : ResponseProps)
    (matched : List ℕ)
    → r.request_type ≡ t
    → rp.no_update ≡ false
    → Served r props rp matched (find_payload t r props rp matched).0
unfolding find_payload
find_payload-Served install r props rp matched e on = elim (Bool-cases r.has_update_check) [
  | inl check ↦ simp check (
      Served-cases r props rp matched _ λ a h.
        installed e on check
          (find_app_sound props.install_app_index r matched (some true) false a h).0)
  | inr bare ↦ simp bare nothing
]
find_payload-Served update r props rp matched e on = Served-cases r props rp matched _ λ a h.
    updated e on
      (find_app_sound props.update_app_index r matched rp.full_payload props.ignore_appid a h).0
find_payload-Served event r props rp matched e on = nothing

-- The payload of a response serves its request from the index that belongs to the request's type,
-- under the conditions of AppResponse: the server is not told to answer "no update", and an install
-- has an update check.
pub new_app_response-Served :
    (r : AppRequest) (props : NebraskaProps) (rp : ResponseProps) (matched : List ℕ)
    → Served r props rp matched (new_app_response r props rp matched).0.app_data
unfolding new_app_response
new_app_response-Served r props rp matched = elim (Bool-cases rp.no_update) [
  | inl off ↦ simp off nothing
  | inr on ↦ simp on (find_payload-Served r.request_type r props rp matched refl on)
]
