-- ===== src/Watchers/Templates.antt =====
-- getTemplate of internal/controller/dns/resourcewatcher_controller.go: the templates by their keys,
-- parsed once for each generation. The lock makes each call one step.
use kube_dns_manager.Prelude.{
  ℕ, String, ◌≡◌, none, some, List, lookup, insert, lookup-insert, nat_eq, arith, eq_refl,
  if◌then◌else◌,
}
use kube_dns_manager.Effects.{Result, ok, err}
use kube_dns_manager.Watchers.Client.{Engine}

-- r.Template and r.cacheGenMap
pub record TemplateCache (T : Type 0) : Type 0 where
  pub templates : T
  pub generations : List (String × ℕ)

-- A missing key of the map reads as 0.
abbrev pub generation_of : {T : Type 0} → TemplateCache T → String → ℕ
generation_of cache key = elim (lookup key cache.generations) [ none ↦ 0 | some n ↦ n ]

module _ {T W : Type 0} (engine : Engine T W) where
  -- getTemplate: the template that it returns is the one of its key.
  unfoldable pub get_template :
      String → ℕ → String → TemplateCache T → Result String × TemplateCache T
  get_template key generation text cache =
      if nat_eq (generation_of cache key) generation
      then (ok key, cache)
      else (let (failure, templates) = engine.parse key text cache.templates in
          elim failure [
            | some e ↦ (err e, record cache { templates = templates })
            | none ↦ (
              ok key,
              record {
                templates = templates;
                generations = insert key generation cache.generations;
              },
            )
          ])

  get_template-generation :
      (key text result : String) (generation : ℕ) (cache : TemplateCache T)
      → (get_template key generation text cache).0 ≡ ok result
      → generation_of (get_template key generation text cache).1 key ≡ generation
  unfolding get_template
  get_template-generation key text result generation cache h =
      ground (arith, h, lookup-insert key key generation cache.generations, eq_refl key)

  get_template_cached :
      (key text : String) (generation : ℕ) (cache : TemplateCache T)
      → generation_of cache key ≡ generation
      → get_template key generation text cache ≡ (ok key, cache)
  unfolding get_template
  get_template_cached key text generation cache h = ground (arith, h)

  -- After a call that succeeded, a call for the same key and generation changes nothing and parses
  -- nothing, whatever text it is given.
  pub get_template_again :
      (key text result other : String) (generation : ℕ) (cache : TemplateCache T)
      → (get_template key generation text cache).0 ≡ ok result
      → get_template key generation other (get_template key generation text cache).1
        ≡ (ok key, (get_template key generation text cache).1)
  get_template_again key text result other generation cache h =
      get_template_cached key other generation (get_template key generation text cache).1
        (get_template-generation key text result generation cache h)
