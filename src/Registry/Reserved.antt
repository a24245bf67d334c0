-- ===== src/Registry/Reserved.antt =====
-- A reload and the shutdown of the runtime.
use mcp_semantic_search_zvec.Prelude.{
  ℕ, ◌≡◌, refl, Bool, true, false, List, [], ◌∷◌, String, length, eq_iff, arith, sym, ◌∙◌,
}
use mcp_semantic_search_zvec.Window.Slices.{All}
use mcp_semantic_search_zvec.Ids.{Ids, contains}
use mcp_semantic_search_zvec.WorkspaceSpecs.{WorkspaceSpec}
use mcp_semantic_search_zvec.Registry.{Handle, Registry, begin_discard}
use mcp_semantic_search_zvec.Registry.Reload.{
  detach, swap, reload_projects, remove_ids, release_reservations,
}
use mcp_semantic_search_zvec.Registry.Reloading.{
  IsIdle, reload_projects_cases, detach-opening, detach-reserves, detach-closing, detach-handles,
  remove_ids-kept, length-remove_ids-le,
}
use mcp_semantic_search_zvec.Registry.System.{System, Eviction, after_reload}
use mcp_semantic_search_zvec.Registry.Done.{Drains}
use mcp_semantic_search_zvec.Registry.Threads.{not_done, opening_not_done}

idle-not_opening :
    (r : Registry) (ids : Ids) (x : String)
    → All (IsIdle r) ids
    → contains r.opening x ≡ true
    → contains ids x ≡ false
unfolding contains
idle-not_opening r [] x a o = refl
idle-not_opening r (id ∷ ids) x a o =
    ground (arith, idle-not_opening r ids x a.1 o, a.0.0, o, eq_iff id x)

All-openers :
    (P Q : String → Type 0) (es : List Eviction)
    → ((x : String) → P x → Q x)
    → All (λ (e : Eviction). P e.opener) es
    → All (λ (e : Eviction). Q e.opener) es
All-openers P Q [] f a = tt
All-openers P Q (e ∷ es) f a = (f e.opener a.0, All-openers P Q es f a.1)

kept-openers :
    (opening ids : Ids) (es : List Eviction)
    → All (λ (e : Eviction). contains opening e.opener ≡ true) es
    → All (λ (e : Eviction). contains ids e.opener ≡ false) es
    → All (λ (e : Eviction). contains (remove_ids opening ids) e.opener ≡ true) es
kept-openers opening ids [] o n = tt
kept-openers opening ids (e ∷ es) o n =
    (remove_ids-kept ids opening e.opener n.0 o.0, kept-openers opening ids es o.1 n.1)

none_reserved-not : (es : List Eviction) → All (λ (e : Eviction). contains [] e.opener ≡ false) es
unfolding contains
none_reserved-not [] = tt
none_reserved-not (e ∷ es) = (refl, none_reserved-not es)

module _ (s : System) (v : Drains s) where
  applied-Drains :
      (most : ℕ) (specs : List WorkspaceSpec) (changed : Ids)
      → s.registry.closing ≡ false
      → All (IsIdle s.registry) changed
      → Drains (after_reload s (swap most specs changed (detach changed s.registry [])))
  unfolding after_reload swap
  applied-Drains most specs changed live idle =
      let same = detach-closing changed s.registry [] in
      record {
        counted = same.1 ∙ v.counted;
        openers =
            All-openers (λ x. contains s.registry.opening x ≡ true)
              (λ x. contains (detach changed s.registry []).0.opening x ≡ true) s.evicted
              (detach-opening changed s.registry []) v.openers;
        done = λ d. absurd (not_done s v live (sym same.2 ∙ d));
        shut = rw same.2 v.shut;
        reserved = detach-reserves changed s.registry [];
        not_reserved =
            All-openers (λ x. contains s.registry.opening x ≡ true)
              (λ x. contains changed x ≡ false) s.evicted
              (λ x o. idle-not_opening s.registry changed x idle o) v.openers;
        reloading = detach-handles changed changed s.registry [] (λ x m. m) tt;
      }

  pub reload-Drains :
      (most : ℕ) (specs : List WorkspaceSpec) (indexing : Handle → Bool)
      → Drains (after_reload s (reload_projects s.registry most specs indexing))
  reload-Drains most specs indexing =
      reload_projects_cases (λ p. Drains (after_reload s p)) s.registry most specs indexing
        (unfold after_reload in v) (λ ids. unfold after_reload in v)
        (λ live changed idle. applied-Drains most specs changed live idle)

  pub begin_reload_discard-Drains :
      (hs : List Handle) (h : Handle)
      → s.to_reload ≡ h ∷ hs
      → Drains (record s {
        registry = begin_discard s.registry;
        to_reload = hs;
        discarding = h ∷ s.discarding;
      })
  unfolding begin_discard
  begin_reload_discard-Drains hs h split =
      let all : All (λ (h : Handle). contains s.reservations h.id ≡ true) (h ∷ hs) =
        rw split at v.reloading in
      record {
        counted = omega (arith, v.counted);
        openers = v.openers;
        done = λ d. absurd (opening_not_done s v h.id (v.reserved h.id all.0) d);
        shut = v.shut;
        reserved = v.reserved;
        not_reserved = v.not_reserved;
        reloading = all.1;
      }

  pub release_reservations-Drains :
      s.to_reload ≡ []
      → Drains (record s {
        registry = release_reservations s.registry s.reservations;
        reservations = [];
      })
  unfolding release_reservations
  release_reservations-Drains none_left = record {
    counted = v.counted;
    openers = kept-openers s.registry.opening s.reservations s.evicted v.openers v.not_reserved;
    done = λ d.
        let w = v.done d in
        record {
          closing = w.closing;
          none_open = w.none_open;
          none_opening = still_none w.none_opening;
          none_discarding = w.none_discarding;
        };
    shut = v.shut;
    reserved = λ id o. unfold contains in cc;
    not_reserved = none_reserved-not s.evicted;
    reloading = rw none_left tt;
  }
    where
      still_none :
          length s.registry.opening ≡ 0 → length (remove_ids s.registry.opening s.reservations) ≡ 0
      still_none z = omega (arith, z, length-remove_ids-le s.reservations s.registry.opening)
