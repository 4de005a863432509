-- ===== src/Outbound.antt =====
-- What the program asks of others: the filter of the capture handle here, webhooks and the AI engine
-- in the children.
pub mod Webhook
pub mod Assistant
use undertow.Base.{String, Bool, Option, none, some, List, [], ◌∷◌, if◌then◌else◌}
use undertow.Base.Eq.{◌==◌, string_eq}
use undertow.Base.Text.{concat}
use undertow.Base.Strings.{trim_space}

-- A capture handle: the filter that is installed, and the error of installing one.
pub record Handle : Type 0 where
  pub installed : String
  pub filter_error : String → Option String

abbrev set_filter : Handle → String → Option String → Option String × Option Handle
set_filter h expr (some err) =
    (some (concat ("invalid BPF filter '" ∷ expr ∷ "': " ∷ err ∷ [])), some h)
set_filter h expr none = (none, some (record h { installed = expr }))

abbrev on_handle : Option Handle → String → Option String × Option Handle
on_handle none expr = (some "pcap handle is nil", none)
on_handle (some h) expr = set_filter h expr (h.filter_error expr)

-- `ApplyBPFFilter` of internal/filter/filter.go: the error, and the handle.
unfoldable pub apply_bpf_filter : Option Handle → String → Option String × Option Handle
apply_bpf_filter handle filter_expr =
    let expr = trim_space filter_expr in
    if expr == "" then (none, handle) else on_handle handle expr
