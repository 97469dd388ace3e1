-- ===== src/Console/Resets/Message.antt =====
-- src/lib/password-reset.ts: the message with a reset link.
use openipaas.Prelude.{String, Option, none, some, [], ◌∷◌, if◌then◌else◌}
use openipaas.Prelude.Text.{◌++◌, replace_all, join, is_empty}

pub record Mail : Type 0 where
  pub to : String
  pub subject : String
  pub text : String
  pub html : String

-- What the sending of a mail ends with: a delivery, or none with the problem where there was one.
pub data Delivery : Type 0 where
  delivered : Delivery
  not_sent : Option String → Delivery

unfoldable pub escape_html : String → String
unfolding replace_all
escape_html value =
    replace_all b'"' "&quot;"
      (replace_all b'>' "&gt;" (replace_all b'<' "&lt;" (replace_all b'&' "&amp;" value)))

greeting : Option String → String
greeting none = "Hi,"
greeting (some name) = if is_empty name then "Hi," else "Hi " ++ name ++ ","

unfoldable pub reset_email : (to link : String) → Option String → Mail
unfolding greeting escape_html join
reset_email to link name = record {
  to = to;
  subject = "Set a new password for Open IpaaS";
  text = join "\n" (
      greeting name
      ∷ ""
      ∷ "Someone asked to reset the password for this Open IpaaS account."
      ∷ "Open this link to choose a new one:"
      ∷ ""
      ∷ link
      ∷ ""
      ∷ "The link works once and expires in 60 minutes."
      ∷ "If it was not you, nothing has changed and you can ignore this message."
      ∷ []);
  html = join "" (
      "<div style=\"font-family:system-ui,-apple-system,Segoe UI,sans-serif;font-size:15px;line-height:1.6;color:#111\">"
      ∷ ("<p>" ++ escape_html (greeting name) ++ "</p>")
      ∷ "<p>Someone asked to reset the password for this Open IpaaS account.</p>"
      ∷ ("<p><a href=\""
          ++ escape_html link
          ++ "\" style=\"display:inline-block;padding:10px 18px;border-radius:8px;background:#111;color:#fff;text-decoration:none\">Choose a new password</a></p>")
      ∷ "<p style=\"color:#666;font-size:13px\">The link works once and expires in 60 minutes. If it was not you, nothing has changed and you can ignore this message.</p>"
      ∷ ("<p style=\"color:#999;font-size:12px;word-break:break-all\">"
          ++ escape_html link
          ++ "</p>")
      ∷ "</div>"
      ∷ []);
}
