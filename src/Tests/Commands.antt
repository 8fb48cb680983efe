-- ===== src/Tests/Commands.antt =====
-- Command templates with concrete tags.
use rail2ban.Prelude.{◌≡◌, refl, none, [], ◌∷◌, ◌++◌, codes, any, str_eq}
use rail2ban.Action.{expand_command, lookup_tag}
use rail2ban.Action.Expand.{expand_command-tag}

expand_command-tag_example :
    expand_command
      (codes "ban " ++ (b'<' ∷ (codes "name" ++ b'>' ∷ codes " <port>")))
      ((codes "port", codes "22") ∷ [])
      (codes "sshd")
      none
    ≡ codes "ban "
      ++ (codes "sshd"
          ++ expand_command (codes " <port>") ((codes "port", codes "22") ∷ []) (codes "sshd") none)
unfolding any lookup_tag str_eq
expand_command-tag_example =
    expand_command-tag ((codes "port", codes "22") ∷ []) (codes "sshd") none (codes "ban ")
      (codes "name") (codes "sshd") (codes " <port>") refl refl refl
