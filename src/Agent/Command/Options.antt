-- ===== src/Agent/Command/Options.antt =====
-- src/agent/server.rs: what the words of the agent's command lines say.
use pulumi_rs_kube_operator.Base.{
  Bool, true, false, Option, none, some, List, [], ◌∷◌, ◌++◌, append_assoc, append-nil, Text, text,
  text_eq, ◌≡◌, refl, ◌∙◌, ap, sym, if◌then◌else◌,
}
use pulumi_rs_kube_operator.Reconcile.CreateUpdate.{flag}
use pulumi_rs_kube_operator.Agent.Command.{Args, flag_arg, each_arg}

-- What the words of a command line after its first one say. An option with a value takes the word
-- behind it, whatever that is.
pub record Options : Type 0 where
  pub parallel : Option Text
  pub message : Option Text
  pub replace : List Text
  pub target : List Text
  pub flags : List Text

abbrev pub nothing : Options
nothing = record { parallel = none; message = none; replace = []; target = []; flags = [] }

-- The options that take a value.
pub data Valued : Type 0 where
  parallel_option message_option replace_option target_option : Valued

abbrev pub valued : Text → Option Valued
valued name =
    if text_eq name (text "--parallel")
    then some parallel_option
    else if text_eq name (text "--message")
    then some message_option
    else if text_eq name (text "--replace")
    then some replace_option
    else if text_eq name (text "--target")
    then some target_option
    else none

abbrev pub store : Valued → Text → Options → Options
store parallel_option v o = record o { parallel = some v }
store message_option v o = record o { message = some v }
store replace_option v o = record o { replace = o.replace ++ v ∷ [] }
store target_option v o = record o { target = o.target ++ v ∷ [] }

-- The words behind an option that waits for its value, or behind none.
unfoldable pub read_words : Option Valued → Args → Options → Options
read_words pending [] o = o
read_words (some option) (v ∷ rest) o = read_words none rest (store option v o)
read_words none (name ∷ rest) o = elim (valued name) [
  | some option ↦ read_words (some option) rest o
  | none ↦ read_words none rest (record o { flags = o.flags ++ name ∷ [] })
]

abbrev pub read_options : Args → Options
read_options [] = nothing
read_options (command ∷ words) = read_words none words nothing

-- A word that is an option with a value, and the word behind it.
read-valued :
    (name v : Text) (option : Valued) (rest : Args) (o : Options)
    → valued name ≡ some option
    → read_words none (name ∷ v ∷ rest) o ≡ read_words none rest (store option v o)
unfolding read_words
read-valued name v option rest o e = rw (read_words, e) refl

pub read-flag :
    (name : Text) (rest : Args) (o : Options)
    → valued name ≡ none
    → read_words none (name ∷ rest) o
      ≡ read_words none rest (record o { flags = o.flags ++ name ∷ [] })
unfolding read_words
read-flag name rest o e = rw (read_words, e) refl

-- A flag that is given if the stack says so.
abbrev pub given : Text → Bool → List Text
given name true = name ∷ []
given name false = []

pub read-flag_arg :
    (name : Text) (b : Bool) (rest : Args) (o : Options)
    → valued name ≡ none
    → read_words none (flag_arg name (flag b) ++ rest) o
      ≡ read_words none rest (record o { flags = o.flags ++ given name b })
unfolding flag_arg
read-flag_arg name true rest o e = read-flag name rest o e
read-flag_arg name false rest o e =
    ap (λ fs. read_words none rest (record o { flags = fs })) (sym (append-nil o.flags))

pub read-last_flag :
    (name : Text) (b : Bool) (o : Options)
    → valued name ≡ none
    → read_words none (flag_arg name (flag b)) o ≡ record o { flags = o.flags ++ given name b }
unfolding flag_arg read_words
read-last_flag name true o e = read-flag name [] o e
read-last_flag name false o e = ap (λ fs. record o { flags = fs }) (sym (append-nil o.flags))

is_valued : valued (text "--target") ≡ some target_option
unfolding text text_eq
is_valued = refl

pub read-targets :
    (targets : List Text) (rest : Args) (o : Options)
    → read_words none (each_arg (text "--target") targets ++ rest) o
      ≡ read_words none rest (record o { target = o.target ++ targets })
unfolding each_arg
read-targets [] rest o =
    ap (λ ts. read_words none rest (record o { target = ts })) (sym (append-nil o.target))
read-targets (t ∷ ts) rest o =
    read-valued (text "--target") t target_option (each_arg (text "--target") ts ++ rest) o
      is_valued
    ∙ read-targets ts rest (record o { target = o.target ++ t ∷ [] })
    ∙ ap (λ us. read_words none rest (record o { target = us })) (append_assoc o.target (t ∷ []) ts)
