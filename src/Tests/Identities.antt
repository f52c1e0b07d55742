-- ===== src/Tests/Identities.antt =====
-- A caller with one identity, who makes another one of the same name.
use tapis_workflows.Base.{
  ℕ, String, ◌≡◌, ◌≢◌, refl, Bool, true, false, Option, some, [], ◌∷◌, All, In, string_eq, nat_eq,
  ◌==◌, arith,
}
use tapis_workflows.Api.{Request}
use tapis_workflows.Identities.{
  Identity, Vault, IdentityBody, Calls, get_identities, post_identity, delete_identity,
}
use tapis_workflows.Identities.Secrets.{
  returned, in_tenant, IsNew, key_of, is_refused, identities_access, post_identity-restores,
}

abbrev ann : Request
ann = record { username = "ann"; tenant_id = "tacc" }

abbrev hub : Identity
hub = record { uuid = 1; name = "hub"; owner = "ann"; tenant_id = "tacc"; sk_id = "key" }

abbrev vault : Vault
vault = record { identities = hub ∷ []; credentials = []; secrets = [] }

identities_access_example :
    ((uuid : Option ℕ)
      → All (λ i. i.owner ≡ ann.username) (returned (get_identities ann uuid vault)))
    × ((uuid : ℕ) (deletes : Bool)
        → (delete_identity ann uuid deletes vault).0 ≢ vault
        → (i : Identity) × In i vault.identities × (i.uuid ≡ uuid) × (i.owner ≡ ann.username))
    × ((t : String)
        → ((uuid : Option ℕ)
            → get_identities (in_tenant t ann) uuid vault ≡ get_identities ann uuid vault)
          × ((uuid : ℕ) (deletes : Bool)
              → delete_identity (in_tenant t ann) uuid deletes vault
                ≡ delete_identity ann uuid deletes vault))
identities_access_example = identities_access ann vault

abbrev calls : Calls
calls = record {
  valid = some true;
  writes = true;
  credentials_saved = true;
  row_saved = true;
  deletes = true;
  secret_uuid = "u";
  uuid = 2;
}

abbrev body : IdentityBody
body = record { type = "github"; name = "hub" }

keys_differ : (◌==◌ {A = String} "key" (key_of ann calls)) ≡ false
unfolding string_eq
keys_differ = refl

hub_key : "key" ≢ key_of ann calls
hub_key e = ground (arith, keys_differ, e)

hub-IsNew : IsNew (key_of ann calls) vault
hub-IsNew = ((hub_key, tt), tt, tt)

hub_refused : is_refused (post_identity ann (some body) calls vault).1 ≡ true
unfolding post_identity string_eq
hub_refused = refl

post_identity-restores_example : (post_identity ann (some body) calls vault).0 ≡ vault
post_identity-restores_example =
    (post_identity-restores ann calls vault hub-IsNew refl).0 refl refl (some body) hub_refused
