-- ===== src/Examples/Dns.antt =====
-- Calls of the four DNS providers.
use Prim.Native.String.{◌++◌, count}
use text.Mathlib.TextLemmas.{length-append}
use kube_dns_manager.Prelude.{
  ℕ, suc, String, ◌≡◌, ◌≢◌, ◌⊎◌, refl, sym, ap, ◌∙◌, subst, true, false, ◌||◌, none, some, List, [],
  ◌∷◌, arith, has_char, split, split-slash-append, if◌then◌else◌,
}
use kube_dns_manager.Effects.{plain, cf_not_found, cf_request, Result, ok, err}
use kube_dns_manager.Api.Meta.{to_string}
use kube_dns_manager.Dns.{Payload}
use kube_dns_manager.Dns.Cloudflare as Cloudflare
use kube_dns_manager.Dns.Alidns as Alidns
use kube_dns_manager.Dns.Alidns.Laws.{GivesIds, create_id}
use kube_dns_manager.Dns.Adguard as Adguard
use kube_dns_manager.Dns.Adguard.Laws.{IsCodec, update_after_create}
use kube_dns_manager.Dns.Job as Job
use kube_dns_manager.Dns.Job.Laws.{IsDone, execute_job-IsDone, job_key-to_string}
use kube_dns_manager.Api.Provider.{selector_matches}
use kube_dns_manager.Dns.Alidns.Names.{matched_rr}
use kube_dns_manager.Examples.Fixtures.{named, web_spec, nonempty, first, record_with, meta_of}

abbrev payload : Payload
payload = record { id = "1"; data_ = ""; spec = web_spec }

abbrev new_payload : Payload
new_payload = record { id = ""; data_ = ""; spec = web_spec }

-- A Cloudflare account whose every record exists already and is not listed.
abbrev cf : Cloudflare.CloudflareApi ℕ
cf = record {
  create = λ zone params w. (err (cf_request (81058 ∷ []) "already exists"), suc w);
  update = λ zone id params w. (err (cf_not_found "unknown"), suc w);
  delete = λ zone id w. (err (cf_not_found "unknown"), suc w);
  list = λ zone name type content w. (ok ([], 0), suc w);
  zone_id_by_name = λ name w. (ok "zone", suc w);
}

is_duplicate :
    Cloudflare.is_record_duplicate_error (cf_request (81058 ∷ []) "already exists") ≡ true
unfolding Cloudflare.is_record_duplicate_error
is_duplicate = refl

-- An Aliyun account that answers every request with the ID "42".
abbrev ali : Alidns.AlidnsApi ℕ
ali = record {
  add_domain_record = λ domain r w. (ok "42", suc w);
  update_domain_record = λ id r w. (ok "42", suc w);
  delete_domain_record = λ id w. (ok tt, suc w);
  describe_domain_records = λ domain rr type value w. (ok (1, "42" ∷ []), suc w);
  describe_domain_info = λ domain w. (ok tt, suc w);
}

gives_ids : GivesIds ali
gives_ids = record {
  adds = λ domain r w id h.
      let same : "42" ≡ id = cc h in subst (λ s. s ≢ "") same (nonempty "42" refl);
  updates =
      λ id r w new h. let same : "42" ≡ new = cc h in subst (λ s. s ≢ "") same (nonempty "42" refl);
}

added : (Alidns.create ali "example.org" new_payload 0).0.failure ≡ none
unfolding Alidns.create
added = refl

create_id_example : (Alidns.create ali "example.org" new_payload 0).0.payload.id ≢ ""
create_id_example = create_id ali "example.org" gives_ids new_payload 0 added

updated : (Alidns.update ali "example.org" payload 0).0.failure ≡ none
unfolding Alidns.update
updated = refl

-- A codec for records without a slash: the domain, a slash and the answer.
marshal : Adguard.AdguardRecord → Result String
marshal r =
    if has_char b'/' r.domain || has_char b'/' r.answer
    then err (plain "slash")
    else ok (r.domain ++ ("/" ++ r.answer))

pair_of : List String → Result Adguard.AdguardRecord
pair_of (d ∷ a ∷ []) = ok (record { domain = d; answer = a })
pair_of _ = err (plain "no record")

abbrev codec : Adguard.Json
codec = record { marshal = marshal; unmarshal = λ s. pair_of (split s b'/') }

marshalled :
    (r : Adguard.AdguardRecord) (s : String)
    → marshal r ≡ ok s
    → (has_char b'/' r.domain ≡ false)
      × (has_char b'/' r.answer ≡ false)
      × (s ≡ r.domain ++ ("/" ++ r.answer))
unfolding marshal
marshalled r s h = (ground (arith, h), ground (arith, h), ground (arith, h))

codec-IsCodec : IsCodec codec
unfolding marshal pair_of
codec-IsCodec = record {
  decodes = λ r s h.
      let (d, a, e) = marshalled r s h in
      ap (λ t. pair_of (split t b'/')) e ∙ ap pair_of (split-slash-append r.domain r.answer d a);
  nonempty = λ r s h empty.
      let (d, a, e) = marshalled r s h in
      omega (
        arith,
        ap count (sym e ∙ empty),
        length-append r.domain ("/" ++ r.answer),
        length-append "/" r.answer,
      );
}

abbrev server : Adguard.Server ℕ
server = record { parse = λ path. ok path; post = λ url body w. (ok (200, ""), suc w) }

rewritten : (Adguard.create codec server new_payload 0).0.failure ≡ none
unfolding Adguard.create marshal has_char Adguard.send
rewritten = refl

update_after_create_example :
    Adguard.update codec server (Adguard.create codec server new_payload 0).0.payload 7 ≡ (
      record { failure = none; payload = (Adguard.create codec server new_payload 0).0.payload },
      7,
    )
update_after_create_example =
    update_after_create codec server codec-IsCodec new_payload 0 7 rewritten

abbrev finished : Job.Condition
finished = record { type = "Complete"; status = "True"; reason = ""; message = "" }

abbrev job : Job.Job
job = record { namespace = "home"; name = "create"; labels = []; conditions = finished ∷ [] }

abbrev jobs : Job.JobCluster ℕ
jobs = record {
  get_job = λ key w. (ok job, suc w);
  create_job = λ j w. (ok j, suc w);
  delete_job = λ j w. (ok tt, suc w);
  unmarshal = λ text. ok job;
  pod_namespace = "dns";
}

abbrev job_provider : Job.JobProvider
job_provider = record {
  namespace = "home";
  create_template = λ p action. ok "create";
  update_template = λ p action. ok "update";
  delete_template = λ p action. ok "delete";
  data_template = none;
  data_update_strategy = "";
}

abbrev running : Payload
running = record payload { id = to_string (named "create") }

job_key-to_string_example :
    Job.job_key jobs job_provider (to_string (named "create")) ≡ some (named "create")
unfolding has_char
job_key-to_string_example = job_key-to_string jobs job_provider (named "create") refl refl

executed :
    (Job.execute_job jobs job_provider job_provider.create_template running "create" 0).0.failure
    ≡ none
unfolding Job.execute_job to_string Job.job_key split Job.check Job.collect Job.remove
executed = refl

execute_job-IsDone_example : IsDone jobs job_provider running 0
execute_job-IsDone_example =
    execute_job-IsDone jobs job_provider job_provider.create_template running "create" 0 executed

has_id : running.id ≢ ""
unfolding to_string
has_id = nonempty "home/create" refl

key : Job.job_key jobs job_provider running.id ≡ some (named "create")
unfolding Job.job_key split to_string
key = refl

-- Jobs that are not deleted, and a provider that writes the data when a job is complete.
abbrev stuck_jobs : Job.JobCluster ℕ
stuck_jobs = record jobs { delete_job = λ j w. (err (plain "conflict"), suc w) }

abbrev writing_provider : Job.JobProvider
writing_provider = record job_provider {
  data_template = some (λ p action. ok "new data");
  data_update_strategy = Job.on_complete;
}

takes_web : selector_matches first.spec.selector (record_with (meta_of "web") []) ≡ ok true
unfolding selector_matches kube_dns_manager.Api.Provider.in_domain
    kube_dns_manager.Prelude.has_suffix kube_dns_manager.Api.Provider.labels_match
takes_web = refl

matched_rr_example :
    ((web_spec.name ≡ "example.org") × (Alidns.get_rr "example.org" web_spec.name ≡ ""))
    ⊎ (web_spec.name ≡ Alidns.get_rr "example.org" web_spec.name ++ ("." ++ "example.org"))
matched_rr_example =
    matched_rr first.spec.selector (record_with (meta_of "web") []) (nonempty "example.org" refl)
      takes_web
