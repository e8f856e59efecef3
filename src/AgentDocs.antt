-- ===== src/AgentDocs.antt =====
-- internal/agentdocs/types.go and render.go: the canonical documents of docs/agents, and what is
-- generated from them. path.Join and strconv.Quote, which is also %q, are parameters.
pub mod Parse
pub mod Sources
pub mod Files
pub mod Check
pub mod Generator
pub mod Document
pub mod Write
pub mod Distinct
use dns_update.Prelude.{
  Bool, true, false, not, Option, none, some, List, [], ◌∷◌, ◌++◌, map, if◌then◌else◌, is_empty,
}
use dns_update.Text.{Text, codes, text_eq, trim_space, has_prefix, trim_prefix}
use dns_update.Text.Cut.{cut, trim_left_lines, trim_right_lines}

-- A Kind is a string, and these are its constants.
abbrev pub Kind : Type 0
Kind = Text

abbrev pub kind_contract : Kind
kind_contract = codes "contract"

abbrev pub kind_skill : Kind
kind_skill = codes "skill"

pub record Source : Type 0 where
  pub path : Text
  pub kind : Kind
  pub slug : Text
  pub title : Text
  pub summary : Text
  pub body : Text

pub record Output : Type 0 where
  pub path : Text
  pub content : Text

pub record Mismatch : Type 0 where
  pub path : Text
  pub expected : Text
  pub observed : Text
  pub missing : Bool
  pub stale : Bool
  pub invalid : Bool

pub data RootTarget : Type 0 where
  codex : RootTarget
  claude : RootTarget
  gemini : RootTarget

pub record Writers : Type 0 where
  pub join_all : List Text → Text
  pub quote : Text → Text

unfoldable pub gemini_command_leaf : Text → Text
gemini_command_leaf slug =
    let leaf = trim_prefix slug (codes "dns-update-") in if is_empty leaf then slug else leaf

unfoldable pub skill_invocation : Text → RootTarget → Text
unfolding gemini_command_leaf
skill_invocation slug codex = codes "$" ++ slug
skill_invocation slug claude = codes "/" ++ slug
skill_invocation slug gemini = codes "/dns-update:" ++ gemini_command_leaf slug

-- What follows the first line.
abbrev second_line : Option (Text × Text) → Text
second_line none = []
second_line (some (heading, rest)) = trim_left_lines rest

unfoldable pub strip_leading_heading : Text → Text
strip_leading_heading text =
    let body = trim_right_lines (trim_left_lines text) in
    if not (has_prefix body (codes "# ")) then body else second_line (cut body (10 ∷ []))

unfoldable pub render_root_helpers : List Source → RootTarget → Text
unfolding skill_invocation
render_root_helpers [] target = []
render_root_helpers (skill ∷ skills) target =
    codes "- `"
    ++ (skill_invocation skill.slug target
        ++ (codes "`: " ++ (skill.summary ++ 10 ∷ render_root_helpers skills target)))

unfoldable pub render_root_markdown : Source → List Source → RootTarget → Text
unfolding strip_leading_heading render_root_helpers
render_root_markdown source skills target =
    let body = strip_leading_heading source.body in
    let written = if not (is_empty body) then body ++ 10 ∷ [] else [] in
    trim_right_lines (written ++ render_root_helpers skills target) ++ 10 ∷ []

unfoldable pub render_skill_markdown : Source → Text
render_skill_markdown source =
    let body = trim_space source.body in
    (codes "---" ++ 10 ∷ codes "name: ")
    ++ (source.slug
        ++ ((10 ∷ codes "description: ")
            ++ (source.summary
                ++ ((10 ∷ codes "---" ++ 10 ∷ [])
                    ++ (if not (is_empty body) then body ++ 10 ∷ [] else [])))))

module _ (writers : Writers) where
  unfoldable pub render_skill_toml : Source → Text
  render_skill_toml source =
      let body = trim_space source.body in
      let prompt = if not (is_empty body) then body ++ 10 ∷ [] else body in
      codes "description = "
      ++ (writers.quote source.summary
          ++ ((10 ∷ codes "prompt = ") ++ (writers.quote prompt ++ 10 ∷ [])))

  unfoldable pub gemini_command_path : Text → Text
  unfolding gemini_command_leaf
  gemini_command_path slug = writers.join_all (
      codes ".gemini"
      ∷ codes "commands"
      ∷ codes "dns-update"
      ∷ (gemini_command_leaf slug ++ codes ".toml")
      ∷ [])

  unfoldable pub render_contract : Source → List Source → List Output
  unfolding render_root_markdown
  render_contract source skills =
      record { path = codes "AGENTS.md"; content = render_root_markdown source skills codex }
      ∷ record { path = codes "CLAUDE.md"; content = render_root_markdown source skills claude }
      ∷ record { path = codes "GEMINI.md"; content = render_root_markdown source skills gemini }
      ∷ []

  unfoldable pub render_skill : Source → List Output
  unfolding render_skill_markdown render_skill_toml gemini_command_path
  render_skill source =
      record {
        path =
            writers.join_all
              (codes ".agents" ∷ codes "skills" ∷ source.slug ∷ codes "SKILL.md" ∷ []);
        content = render_skill_markdown source;
      }
      ∷ record {
        path =
            writers.join_all
              (codes ".claude" ∷ codes "skills" ∷ source.slug ∷ codes "SKILL.md" ∷ []);
        content = render_skill_markdown source;
      }
      ∷ record { path = gemini_command_path source.slug; content = render_skill_toml source }
      ∷ []
