-- ===== src/Backup/Script/Quoting.antt =====
-- script.go, shellQuoteIfNeeded: how a shell reads what was quoted.
use borgbase_operator.Base.{
  ℕ, ◌==◌, ==_iff, leb, Text, is_empty, all, Bool, true, false, not, ◌&&◌, ◌||◌, Option, none, some,
  [], ◌∷◌, ◌++◌, ◌≡◌, refl, arith, if◌then◌else◌,
}
use borgbase_operator.Backup.Script.{escape_quotes, shell_quote, is_safe, shell_quote_if_needed}

-- Where the shell stands in a word: outside quotes, in single quotes, or after a backslash.
pub data Reading : Type 0 where
  bare quoted escaped : Reading

-- The bytes that end a bare word, or that the shell does not take as themselves in one: controls
-- and blanks, and ! " # $ & ( ) * ; < > ? [ ] ^ ` { | } ~.
unfoldable pub is_special : ℕ → Bool
is_special c =
    leb c 36
    || (c == 38
        || (c == 40
            || (c == 41
                || (c == 42
                    || (c == 59
                        || (c == 60
                            || (c == 62
                                || (c == 63
                                    || (c == 91
                                        || (c == 93 || (c == 94 || (c == 96 || leb 123 c))))))))))))

-- How a POSIX shell reads on in one word that has no expansion in it: the bytes it stands for.
unfoldable pub read_word : Reading → Text → Option Text
unfolding is_special
read_word bare [] = some []
read_word quoted [] = none
read_word escaped [] = none
read_word bare (c ∷ s) =
    let in_quotes = read_word quoted s in
    let after = read_word escaped s in
    let rest = read_word bare s in
    if c == 39
    then in_quotes
    else if c == 92
    then after
    else if is_special c
    then none
    else elim rest [ none ↦ none | some w ↦ some (c ∷ w) ]
read_word quoted (c ∷ s) =
    let outside = read_word bare s in
    let rest = read_word quoted s in
    if c == 39 then outside else elim rest [ none ↦ none | some w ↦ some (c ∷ w) ]
read_word escaped (c ∷ s) = elim (read_word bare s) [ none ↦ none | some w ↦ some (c ∷ w) ]

-- How it reads a text as one word. No text is no word; an empty word is a pair of quotes.
unfoldable pub read_one_word : Text → Option Text
unfolding read_word
read_one_word [] = none
read_one_word (c ∷ s) = read_word bare (c ∷ s)

read_word-escape_quotes : (s : Text) → read_word quoted (escape_quotes s ++ (39 ∷ [])) ≡ some s
unfolding read_word escape_quotes
read_word-escape_quotes [] = refl
read_word-escape_quotes (c ∷ s) = by_byte (c == 39) refl (read_word-escape_quotes s)
  where
    by_byte :
        (b : Bool)
        → (c == 39) ≡ b
        → read_word quoted (escape_quotes s ++ (39 ∷ [])) ≡ some s
        → read_word quoted (escape_quotes (c ∷ s) ++ (39 ∷ [])) ≡ some (c ∷ s)
    by_byte true h rest = rw ((==_iff c 39).0 h) (rw rest refl)
    by_byte false h rest = rw h (rw h (rw rest refl))

read_word-shell_quote : (s : Text) → read_word bare (shell_quote s) ≡ some s
unfolding read_word shell_quote
read_word-shell_quote s = read_word-escape_quotes s

plain_byte :
    (c : ℕ)
    → is_safe c ≡ true
    → ((c == 39) ≡ false) × (((c == 92) ≡ false) × (is_special c ≡ false))
unfolding is_safe is_special
plain_byte c h = ground arith

read_word-safe : (s : Text) → all is_safe s ≡ true → read_word bare s ≡ some s
unfolding read_word
read_word-safe [] h = refl
read_word-safe (c ∷ s) h =
    let (safe, more) = split_and (is_safe c) (all is_safe s) h in
    let (p, (q, r)) = plain_byte c safe in rw (p, q, r) (rw (read_word-safe s more) refl)
  where
    split_and : (a b : Bool) → (a && b) ≡ true → (a ≡ true) × (b ≡ true)
    split_and a b q = ground arith

read_one_word-safe :
    (s : Text) → is_empty s ≡ false → read_word bare s ≡ some s → read_one_word s ≡ some s
unfolding read_one_word
read_one_word-safe [] nonempty h = cc
read_one_word-safe (c ∷ s) nonempty h = h

read_one_word-shell_quote : (s : Text) → read_one_word (shell_quote s) ≡ some s
unfolding read_one_word shell_quote
read_one_word-shell_quote s = read_word-shell_quote s

-- A POSIX shell reads the text that `shellQuoteIfNeeded` writes as one word, and that word is
-- the given text, for every text, the empty one included: no text at all would be no word.
pub read_word-shell_quote_if_needed : (s : Text) → read_one_word (shell_quote_if_needed s) ≡ some s
unfolding shell_quote_if_needed
read_word-shell_quote_if_needed s = by_class (is_empty s) (all is_safe s) refl refl
  where
    by_class :
        (a b : Bool)
        → is_empty s ≡ a
        → all is_safe s ≡ b
        → read_one_word (if not a && b then s else shell_quote s) ≡ some s
    by_class false true p q = read_one_word-safe s p (read_word-safe s q)
    by_class false false p q = read_one_word-shell_quote s
    by_class true b p q = read_one_word-shell_quote s
