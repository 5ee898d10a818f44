-- ===== src/Dns/Job/Context.antt =====
-- internal/controller/dns/provider/job/job.go: the client that the provider finds in the context.
use kube_dns_manager.Effects.{Error, plain, Result, ok, err}

abbrev pub error_client_not_found : Error
error_client_not_found = plain "client not found in context"

abbrev pub error_client_not_client : Error
error_client_not_client = plain "client is not a client.Client"

-- ctx.Value(CtxKeyClient): nothing, something else, or a client.
pub data ContextValue (C : Type 0) : Type 0 where
  missing other : ContextValue C
  client : C → ContextValue C

-- getClient
unfoldable pub get_client : {C : Type 0} → ContextValue C → Result C
get_client missing = err error_client_not_found
get_client other = err error_client_not_client
get_client (client c) = ok c
