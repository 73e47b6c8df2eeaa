-- ===== src/Cli/Commands/Join.antt =====
-- The options of the join command.
use peer_mesh.Prelude.{
  ◌≡◌, refl, ◌∙◌, List, [], ◌∷◌, ◌++◌, ◌⊎◌, inl, inr, ok, err, list_beq, list_beq_iff, ◌==◌,
  list_eq, Bool-cases,
}
use peer_mesh.Cli.Commands.{
  Text, Error, server_requires_value, name_requires_value, server_option, name_option, other_word,
  option_kind, join_options, codes,
}

-- What a user may write: an option with its value, or a word that join ignores.
pub data Setting : Type 0 where
  sets_server sets_name ignores : Text → Setting

abbrev pub render : List Setting → List Text
render [] = []
render (sets_server v ∷ ss) = codes "--server" ∷ v ∷ render ss
render (sets_name v ∷ ss) = codes "--name" ∷ v ∷ render ss
render (ignores w ∷ ss) = w ∷ render ss

-- An ignored word is no option.
abbrev pub AreIgnored : List Setting → Type 0
AreIgnored [] = Unit
AreIgnored (ignores w ∷ ss) = (option_kind w ≡ other_word) × AreIgnored ss
AreIgnored (s ∷ ss) = AreIgnored ss

-- The last setting of each option wins.
abbrev pub server_of : List Setting → Text → Text
server_of [] server = server
server_of (sets_server v ∷ ss) server = server_of ss v
server_of (s ∷ ss) server = server_of ss server

abbrev pub name_of : List Setting → Text → Text
name_of [] name = name
name_of (sets_name v ∷ ss) name = name_of ss v
name_of (s ∷ ss) name = name_of ss name

join_server :
    (word value : Text) (args : List Text) (server name : Text)
    → option_kind word ≡ server_option
    → join_options (word ∷ value ∷ args) server name ≡ join_options args value name
unfolding join_options
join_server word value args server name e = rw (e, join_options) refl

join_name :
    (word value : Text) (args : List Text) (server name : Text)
    → option_kind word ≡ name_option
    → join_options (word ∷ value ∷ args) server name ≡ join_options args server value
unfolding join_options
join_name word value args server name e = rw (e, join_options) refl

join_other :
    (word : Text) (args : List Text) (server name : Text)
    → option_kind word ≡ other_word
    → join_options (word ∷ args) server name ≡ join_options args server name
unfolding join_options
join_other word [] server name e = rw (e, join_options) refl
join_other word (value ∷ args) server name e = rw (e, join_options) refl

server_kind : option_kind (codes "--server") ≡ server_option
unfolding option_kind list_beq
server_kind = refl

name_kind : option_kind (codes "--name") ≡ name_option
unfolding option_kind list_beq
name_kind = refl

-- The arguments of any settings are read back: the last value of each option, or the default.
pub join_options-render :
    (ss : List Setting) (server name : Text)
    → AreIgnored ss
    → join_options (render ss) server name ≡ ok (server_of ss server, name_of ss name)
join_options-render [] server name h = unfold join_options in refl
join_options-render (sets_server v ∷ ss) server name h =
    join_server (codes "--server") v (render ss) server name server_kind
    ∙ join_options-render ss v name h
join_options-render (sets_name v ∷ ss) server name h =
    join_name (codes "--name") v (render ss) server name name_kind
    ∙ join_options-render ss server v h
join_options-render (ignores w ∷ ss) server name h =
    join_other w (render ss) server name h.0 ∙ join_options-render ss server name h.1

-- An option that stands last, and its error.
pub data Lacks (word : Text) : Error → Type 0 where
  no_server : word ≡ codes "--server" → Lacks word server_requires_value
  no_name : word ≡ codes "--name" → Lacks word name_requires_value

abbrev pub Read : List Text → Text → Text → List Setting → Type 0
Read args server name ss =
    (args ≡ render ss) × (join_options args server name ≡ ok (server_of ss server, name_of ss name))

abbrev pub Refused : List Text → Text → Text → List Setting → Type 0
Refused args server name ss =
    (word : Text) × (e : Error) × (args ≡ render ss ++ word ∷ [])
    × Lacks word e
    × (join_options args server name ≡ err e)

abbrev pub Understood : List Text → Text → Text → Type 0
Understood args server name =
    (ss : List Setting) × AreIgnored ss × (Read args server name ss ⊎ Refused args server name ss)

-- The kind of a word, and which word it is.
data Kind (word : Text) : Type 0 where
  is_server : option_kind word ≡ server_option → word ≡ codes "--server" → Kind word
  is_name : option_kind word ≡ name_option → word ≡ codes "--name" → Kind word
  is_other : option_kind word ≡ other_word → Kind word

word-Kind : (word : Text) → Kind word
unfolding option_kind
word-Kind word = elim (Bool-cases (word == codes "--server")) [
  | inl s ↦ is_server (rw (s, option_kind) refl) ((list_beq_iff word (codes "--server")).0 s)
  | inr t ↦ elim (Bool-cases (word == codes "--name")) [
    | inl n ↦ is_name (rw (t, n, option_kind) refl) ((list_beq_iff word (codes "--name")).0 n)
    | inr o ↦ is_other (rw (t, o, option_kind) refl)
  ]
]

read_more :
    (args rest : List Text) (server name server' name' : Text) (s : Setting)
    → ((ss : List Setting) → rest ≡ render ss → args ≡ render (s ∷ ss))
    → ((ss : List Setting) (w : Text)
        → rest ≡ render ss ++ w ∷ []
        → args ≡ render (s ∷ ss) ++ w ∷ [])
    → join_options args server name ≡ join_options rest server' name'
    → ((ss : List Setting)
        → (server_of (s ∷ ss) server ≡ server_of ss server')
          × (name_of (s ∷ ss) name ≡ name_of ss name'))
    → ((ss : List Setting) → AreIgnored ss → AreIgnored (s ∷ ss))
    → Understood rest server' name'
    → Understood args server name
read_more args rest server name server' name' s whole cut same last plain (ss, h, inl (e, r)) =
    (s ∷ ss, plain ss h, inl (whole ss e, same ∙ r ∙ rw ((last ss).0, (last ss).1) refl))
read_more args rest server name server' name' s whole cut same last plain
      (ss, h, inr (w, e, p, l, r)) =
    (s ∷ ss, plain ss h, inr (w, e, cut ss w p, l, same ∙ r))

-- Whatever the arguments of join are, they are the words of settings, whose last values are read, or such
-- words and then an option without its value, whose error comes back.
pub join_options-Understood : (args : List Text) (server name : Text) → Understood args server name
unfolding join_options
join_options-Understood [] server name = ([], tt, inl (refl, refl))
join_options-Understood (word ∷ []) server name = elim (word-Kind word) [
  | is_server e w ↦
      ([], tt, inr (word, server_requires_value, refl, no_server w, rw (e, join_options) refl))
  | is_name e w ↦
      ([], tt, inr (word, name_requires_value, refl, no_name w, rw (e, join_options) refl))
  | is_other e ↦ (ignores word ∷ [], (e, tt), inl (refl, rw (e, join_options) refl))
]
join_options-Understood (word ∷ value ∷ args) server name = elim (word-Kind word) [
  | is_server e w ↦
      read_more _ args server name value name (sets_server value) (λ ss q. rw (w, q) refl)
        (λ ss u q. rw (w, q) refl) (join_server word value args server name e) (λ ss. (refl, refl))
        (λ ss h. h) (join_options-Understood args value name)
  | is_name e w ↦
      read_more _ args server name server value (sets_name value) (λ ss q. rw (w, q) refl)
        (λ ss u q. rw (w, q) refl) (join_name word value args server name e) (λ ss. (refl, refl))
        (λ ss h. h) (join_options-Understood args server value)
  | is_other e ↦
      read_more _ (value ∷ args) server name server name (ignores word) (λ ss q. rw q refl)
        (λ ss u q. rw q refl) (join_other word (value ∷ args) server name e) (λ ss. (refl, refl))
        (λ ss h. (e, h)) (join_options-Understood (value ∷ args) server name)
]
