-- ===== src/HostNative/Instructions.antt =====
-- _instructions of adapters/host_native.py: the text that a task gives its host.
use graph_skill_runtime.Common.{ℕ, suc, String, List, [], ◌∷◌, map, ◌==◌, if◌then◌else◌}
use graph_skill_runtime.Common.Text.{concat, join}
use graph_skill_runtime.Json.{JsonObject}
use graph_skill_runtime.Manifest.{AgentNodeAst, AgentStep, AgentProtocol}
use graph_skill_runtime.Domain.Agent.{AgentResource, ResourceKind}
use graph_skill_runtime.HostNative.Platform.{Platform}

-- Markdown lists: the steps are numbered from 1.
unfoldable pub step_lines : (ℕ → String) → ℕ → List AgentStep → List String
step_lines decimal index [] = []
step_lines decimal index (step ∷ steps) =
    concat (decimal index ∷ ". " ∷ step.name ∷ ": " ∷ step.content ∷ [])
    ∷ step_lines decimal (suc index) steps

abbrev pub kind_text : ResourceKind → String
kind_text ResourceKind.reference = "reference"
kind_text ResourceKind.example = "example"

unfoldable pub resource_line : AgentResource → String
resource_line r = concat ("- @" ∷ kind_text r.kind ∷ ":" ∷ r.resource_id ∷ " — " ∷ r.summary ∷ [])

-- text or default
abbrev pub or_default : String → String → String
or_default default text = if text == "" then default else text

module _ (host : Platform) where
  unfoldable pub instructions : AgentNodeAst → JsonObject → List AgentResource → String
  unfolding step_lines resource_line
  instructions node inputs resources =
      let steps =
        or_default "1. Complete the stated goal."
          (join "\n" (step_lines host.decimal 1 node.steps)) in
      let protocols =
        or_default "- Follow the host's normal safety and tool policies." (
          join "\n" (map (λ (p : AgentProtocol). concat ("- " ∷ p.content ∷ [])) node.protocols)) in
      let resource_registry = or_default "- None." (join "\n" (map resource_line resources)) in
      concat (
        "Execute one graph-skill Agent phase in a fresh, clean host-native "
        ∷ "subagent context. Do not run or resume the parent graph yourself.\n\n"
        ∷ "Role\n"
        ∷ node.role
        ∷ "\n\n"
        ∷ "Goal\n"
        ∷ node.goal
        ∷ "\n\n"
        ∷ "Steps\n"
        ∷ steps
        ∷ "\n\n"
        ∷ "Protocols\n"
        ∷ protocols
        ∷ "\n\n"
        ∷ "Declared resources\n"
        ∷ resource_registry
        ∷ "\n\n"
        ∷ "Inputs (JSON)\n"
        ∷ host.dumps inputs
        ∷ "\n\n"
        ∷ "Return exactly one JSON object that validates against this output "
        ∷ "schema; do not wrap it in Markdown:\n"
        ∷ host.dumps node.io.outputs
        ∷ [])
