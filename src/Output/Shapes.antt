-- ===== src/Output/Shapes.antt =====
-- src/output/json.rs and src/output/redirect.rs: what the responses say to a client.
use finch_router.Prelude.{◌≡◌, String, [], ◌∷◌, ◌⊎◌, ◌↔◌, inl, inr, arith, ℕ, Sum-cases}
use finch_router.Crates.{Crates}
use finch_router.Output.{
  HeaderCrate, json_response, redirect_with, redirect_response, status_response,
}

module _ {k : Crates} (h : HeaderCrate k)
    (get_all-insert : (name : String) (value : k.HeaderValue) (headers : k.HeaderMap)
      → h.get_all name (h.insert name value headers) ≡ value ∷ []) where
  -- A JSON output is sent as JSON in every case, and its status is 500 where the value cannot be
  -- printed, and 200 where it can.
  json_response_lem :
      {T : Type 0} (to_text : T → String ⊎ String) (error_text : String → String) (x : T)
      (request : k.Request)
      → let response = json_response h to_text error_text x request in
        (h.get_all "content-type" response.headers ≡ h.from_static "application/json" ∷ [])
        × ((response.status ≡ 500) ↔ ((e : String) × (to_text x ≡ inr e)))
        × ((response.status ≡ 200)
            ↔ ((body : String) × (to_text x ≡ inl body) × (response.body ≡ body)))
  unfolding json_response
  json_response_lem to_text error_text x request = elim (Sum-cases (to_text x)) [
    | inl (body, e) ↦ (
      ground (
        arith,
        e,
        get_all-insert "content-type" (h.from_static "application/json") h.new_headers,
      ),
      (λ f. ground (arith, e, f), λ f. ground (arith, e, f.1)),
      (λ _. (body, e, ground (arith, e)), λ _. ground (arith, e)),
    )
    | inr (cause, e) ↦ (
      ground (
        arith,
        e,
        get_all-insert "content-type" (h.from_static "application/json") h.new_headers,
      ),
      (λ _. (cause, e), λ _. ground (arith, e)),
      (λ f. ground (arith, e, f), λ f. ground (arith, e, f.1)),
    )
  ]

  -- A redirect with a status and a location says both, and any status set around it by `Created` or
  -- `Status` keeps the location.
  redirect_with_lem :
      (status other : ℕ) (location : String) (request : k.Request)
      → let response = redirect_response h (redirect_with h status location) request in
        let around =
          status_response (redirect_response h) (redirect_with h status location, other) request in
        (response.status ≡ status)
        × (h.get_all "location" response.headers ≡ h.from_static location ∷ [])
        × (around ≡ record response { status = other })
  unfolding redirect_with redirect_response status_response
  redirect_with_lem status other location request =
      ground (arith, get_all-insert "location" (h.from_static location) h.new_headers)
