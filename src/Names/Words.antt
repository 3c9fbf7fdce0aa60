-- ===== src/Names/Words.antt =====
-- The names of src/field.cpp's table `by_name_`, in its order.
use http_proto.Base.{List, [], ◌∷◌, ◌++◌, Bytes, codes}

-- From "<unknown-field>" on.
unfoldable pub names_a : List Bytes
names_a =
    codes "<unknown-field>"
    ∷ codes "A-IM"
    ∷ codes "Accept"
    ∷ codes "Accept-Additions"
    ∷ codes "Accept-Charset"
    ∷ codes "Accept-Datetime"
    ∷ codes "Accept-Encoding"
    ∷ codes "Accept-Features"
    ∷ codes "Accept-Language"
    ∷ codes "Accept-Patch"
    ∷ codes "Accept-Post"
    ∷ codes "Accept-Ranges"
    ∷ codes "Access-Control"
    ∷ codes "Access-Control-Allow-Credentials"
    ∷ codes "Access-Control-Allow-Headers"
    ∷ codes "Access-Control-Allow-Methods"
    ∷ codes "Access-Control-Allow-Origin"
    ∷ codes "Access-Control-Expose-Headers"
    ∷ codes "Access-Control-Max-Age"
    ∷ codes "Access-Control-Request-Headers"
    ∷ codes "Access-Control-Request-Method"
    ∷ codes "Age"
    ∷ codes "Allow"
    ∷ codes "ALPN"
    ∷ codes "Also-Control"
    ∷ codes "Alt-Svc"
    ∷ codes "Alt-Used"
    ∷ codes "Alternate-Recipient"
    ∷ codes "Alternates"
    ∷ codes "Apparently-To"
    ∷ codes "Apply-To-Redirect-Ref"
    ∷ codes "Approved"
    ∷ codes "Archive"
    ∷ codes "Archived-At"
    ∷ codes "Article-Names"
    ∷ codes "Article-Updates"
    ∷ codes "Authentication-Control"
    ∷ codes "Authentication-Info"
    ∷ codes "Authentication-Results"
    ∷ codes "Authorization"
    ∷ codes "Auto-Submitted"
    ∷ codes "Autoforwarded"
    ∷ codes "Autosubmitted"
    ∷ codes "Base"
    ∷ codes "Bcc"
    ∷ codes "Body"
    ∷ codes "C-Ext"
    ∷ codes "C-Man"
    ∷ codes "C-Opt"
    ∷ codes "C-PEP"
    ∷ codes "C-PEP-Info"
    ∷ codes "Cache-Control"
    ∷ codes "CalDAV-Timezones"
    ∷ codes "Cancel-Key"
    ∷ codes "Cancel-Lock"
    ∷ codes "Cc"
    ∷ codes "Close"
    ∷ codes "Comments"
    ∷ codes "Compliance"
    ∷ codes "Connection"
    ∷ codes "Content-Alternative"
    ∷ codes "Content-Base"
    ∷ codes "Content-Description"
    ∷ codes "Content-Disposition"
    ∷ codes "Content-Duration"
    ∷ codes "Content-Encoding"
    ∷ codes "Content-features"
    ∷ codes "Content-ID"
    ∷ codes "Content-Identifier"
    ∷ codes "Content-Language"
    ∷ codes "Content-Length"
    ∷ codes "Content-Location"
    ∷ codes "Content-MD5"
    ∷ codes "Content-Range"
    ∷ codes "Content-Return"
    ∷ codes "Content-Script-Type"
    ∷ codes "Content-Style-Type"
    ∷ codes "Content-Transfer-Encoding"
    ∷ codes "Content-Type"
    ∷ codes "Content-Version"
    ∷ codes "Control"
    ∷ codes "Conversion"
    ∷ codes "Conversion-With-Loss"
    ∷ codes "Cookie"
    ∷ codes "Cookie2"
    ∷ codes "Cost"
    ∷ codes "DASL"
    ∷ codes "Date"
    ∷ codes "Date-Received"
    ∷ codes "DAV"
    ∷ codes "Default-Style"
    ∷ codes "Deferred-Delivery"
    ∷ codes "Delivery-Date"
    ∷ codes "Delta-Base"
    ∷ codes "Depth"
    ∷ codes "Derived-From"
    ∷ codes "Destination"
    ∷ codes "Differential-ID"
    ∷ codes "Digest"
    ∷ codes "Discarded-X400-IPMS-Extensions"
    ∷ codes "Discarded-X400-MTS-Extensions"
    ∷ codes "Disclose-Recipients"
    ∷ codes "Disposition-Notification-Options"
    ∷ codes "Disposition-Notification-To"
    ∷ codes "Distribution"
    ∷ codes "DKIM-Signature"
    ∷ codes "DL-Expansion-History"
    ∷ codes "Downgraded-Bcc"
    ∷ codes "Downgraded-Cc"
    ∷ codes "Downgraded-Disposition-Notification-To"
    ∷ codes "Downgraded-Final-Recipient"
    ∷ codes "Downgraded-From"
    ∷ codes "Downgraded-In-Reply-To"
    ∷ codes "Downgraded-Mail-From"
    ∷ codes "Downgraded-Message-Id"
    ∷ codes "Downgraded-Original-Recipient"
    ∷ codes "Downgraded-Rcpt-To"
    ∷ codes "Downgraded-References"
    ∷ codes "Downgraded-Reply-To"
    ∷ codes "Downgraded-Resent-Bcc"
    ∷ []

unfoldable pub names_b : List Bytes
names_b =
    codes "Downgraded-Resent-Cc"
    ∷ codes "Downgraded-Resent-From"
    ∷ codes "Downgraded-Resent-Reply-To"
    ∷ codes "Downgraded-Resent-Sender"
    ∷ codes "Downgraded-Resent-To"
    ∷ codes "Downgraded-Return-Path"
    ∷ codes "Downgraded-Sender"
    ∷ codes "Downgraded-To"
    ∷ codes "EDIINT-Features"
    ∷ codes "Eesst-Version"
    ∷ codes "Encoding"
    ∷ codes "Encrypted"
    ∷ codes "Errors-To"
    ∷ codes "ETag"
    ∷ codes "Expect"
    ∷ codes "Expires"
    ∷ codes "Expiry-Date"
    ∷ codes "Ext"
    ∷ codes "Followup-To"
    ∷ codes "Forwarded"
    ∷ codes "From"
    ∷ codes "Generate-Delivery-Report"
    ∷ codes "GetProfile"
    ∷ codes "Hobareg"
    ∷ codes "Host"
    ∷ codes "HTTP2-Settings"
    ∷ codes "If"
    ∷ codes "If-Match"
    ∷ codes "If-Modified-Since"
    ∷ codes "If-None-Match"
    ∷ codes "If-Range"
    ∷ codes "If-Schedule-Tag-Match"
    ∷ codes "If-Unmodified-Since"
    ∷ codes "IM"
    ∷ codes "Importance"
    ∷ codes "In-Reply-To"
    ∷ codes "Incomplete-Copy"
    ∷ codes "Injection-Date"
    ∷ codes "Injection-Info"
    ∷ codes "Jabber-ID"
    ∷ codes "Keep-Alive"
    ∷ codes "Keywords"
    ∷ codes "Label"
    ∷ codes "Language"
    ∷ codes "Last-Modified"
    ∷ codes "Latest-Delivery-Time"
    ∷ codes "Lines"
    ∷ codes "Link"
    ∷ codes "List-Archive"
    ∷ codes "List-Help"
    ∷ codes "List-ID"
    ∷ codes "List-Owner"
    ∷ codes "List-Post"
    ∷ codes "List-Subscribe"
    ∷ codes "List-Unsubscribe"
    ∷ codes "List-Unsubscribe-Post"
    ∷ codes "Location"
    ∷ codes "Lock-Token"
    ∷ codes "Man"
    ∷ codes "Max-Forwards"
    ∷ codes "Memento-Datetime"
    ∷ codes "Message-Context"
    ∷ codes "Message-ID"
    ∷ codes "Message-Type"
    ∷ codes "Meter"
    ∷ codes "Method-Check"
    ∷ codes "Method-Check-Expires"
    ∷ codes "MIME-Version"
    ∷ codes "MMHS-Acp127-Message-Identifier"
    ∷ codes "MMHS-Authorizing-Users"
    ∷ codes "MMHS-Codress-Message-Indicator"
    ∷ codes "MMHS-Copy-Precedence"
    ∷ codes "MMHS-Exempted-Address"
    ∷ codes "MMHS-Extended-Authorisation-Info"
    ∷ codes "MMHS-Handling-Instructions"
    ∷ codes "MMHS-Message-Instructions"
    ∷ codes "MMHS-Message-Type"
    ∷ codes "MMHS-Originator-PLAD"
    ∷ codes "MMHS-Originator-Reference"
    ∷ codes "MMHS-Other-Recipients-Indicator-CC"
    ∷ codes "MMHS-Other-Recipients-Indicator-To"
    ∷ codes "MMHS-Primary-Precedence"
    ∷ codes "MMHS-Subject-Indicator-Codes"
    ∷ codes "MT-Priority"
    ∷ codes "Negotiate"
    ∷ codes "Newsgroups"
    ∷ codes "NNTP-Posting-Date"
    ∷ codes "NNTP-Posting-Host"
    ∷ codes "Non-Compliance"
    ∷ codes "Obsoletes"
    ∷ codes "Opt"
    ∷ codes "Optional"
    ∷ codes "Optional-WWW-Authenticate"
    ∷ codes "Ordering-Type"
    ∷ codes "Organization"
    ∷ codes "Origin"
    ∷ codes "Original-Encoded-Information-Types"
    ∷ codes "Original-From"
    ∷ codes "Original-Message-ID"
    ∷ codes "Original-Recipient"
    ∷ codes "Original-Sender"
    ∷ codes "Original-Subject"
    ∷ codes "Originator-Return-Address"
    ∷ codes "Overwrite"
    ∷ codes "P3P"
    ∷ codes "Path"
    ∷ codes "PEP"
    ∷ codes "Pep-Info"
    ∷ codes "PICS-Label"
    ∷ codes "Position"
    ∷ codes "Posting-Version"
    ∷ codes "Pragma"
    ∷ codes "Prefer"
    ∷ codes "Preference-Applied"
    ∷ codes "Prevent-NonDelivery-Report"
    ∷ codes "Priority"
    ∷ codes "Privicon"
    ∷ codes "ProfileObject"
    ∷ codes "Protocol"
    ∷ codes "Protocol-Info"
    ∷ []

-- Up to "Xref".
unfoldable pub names_c : List Bytes
names_c =
    codes "Protocol-Query"
    ∷ codes "Protocol-Request"
    ∷ codes "Proxy-Authenticate"
    ∷ codes "Proxy-Authentication-Info"
    ∷ codes "Proxy-Authorization"
    ∷ codes "Proxy-Connection"
    ∷ codes "Proxy-Features"
    ∷ codes "Proxy-Instruction"
    ∷ codes "Public"
    ∷ codes "Public-Key-Pins"
    ∷ codes "Public-Key-Pins-Report-Only"
    ∷ codes "Range"
    ∷ codes "Received"
    ∷ codes "Received-SPF"
    ∷ codes "Redirect-Ref"
    ∷ codes "References"
    ∷ codes "Referer"
    ∷ codes "Referer-Root"
    ∷ codes "Relay-Version"
    ∷ codes "Reply-By"
    ∷ codes "Reply-To"
    ∷ codes "Require-Recipient-Valid-Since"
    ∷ codes "Resent-Bcc"
    ∷ codes "Resent-Cc"
    ∷ codes "Resent-Date"
    ∷ codes "Resent-From"
    ∷ codes "Resent-Message-ID"
    ∷ codes "Resent-Reply-To"
    ∷ codes "Resent-Sender"
    ∷ codes "Resent-To"
    ∷ codes "Resolution-Hint"
    ∷ codes "Resolver-Location"
    ∷ codes "Retry-After"
    ∷ codes "Return-Path"
    ∷ codes "Safe"
    ∷ codes "Schedule-Reply"
    ∷ codes "Schedule-Tag"
    ∷ codes "Sec-Fetch-Dest"
    ∷ codes "Sec-Fetch-Mode"
    ∷ codes "Sec-Fetch-Site"
    ∷ codes "Sec-Fetch-User"
    ∷ codes "Sec-WebSocket-Accept"
    ∷ codes "Sec-WebSocket-Extensions"
    ∷ codes "Sec-WebSocket-Key"
    ∷ codes "Sec-WebSocket-Protocol"
    ∷ codes "Sec-WebSocket-Version"
    ∷ codes "Security-Scheme"
    ∷ codes "See-Also"
    ∷ codes "Sender"
    ∷ codes "Sensitivity"
    ∷ codes "Server"
    ∷ codes "Set-Cookie"
    ∷ codes "Set-Cookie2"
    ∷ codes "SetProfile"
    ∷ codes "SIO-Label"
    ∷ codes "SIO-Label-History"
    ∷ codes "SLUG"
    ∷ codes "SoapAction"
    ∷ codes "Solicitation"
    ∷ codes "Status-URI"
    ∷ codes "Strict-Transport-Security"
    ∷ codes "Subject"
    ∷ codes "SubOK"
    ∷ codes "Subst"
    ∷ codes "Summary"
    ∷ codes "Supersedes"
    ∷ codes "Surrogate-Capability"
    ∷ codes "Surrogate-Control"
    ∷ codes "TCN"
    ∷ codes "TE"
    ∷ codes "Timeout"
    ∷ codes "Title"
    ∷ codes "To"
    ∷ codes "Topic"
    ∷ codes "Trailer"
    ∷ codes "Transfer-Encoding"
    ∷ codes "TTL"
    ∷ codes "UA-Color"
    ∷ codes "UA-Media"
    ∷ codes "UA-Pixels"
    ∷ codes "UA-Resolution"
    ∷ codes "UA-Windowpixels"
    ∷ codes "Upgrade"
    ∷ codes "Urgency"
    ∷ codes "URI"
    ∷ codes "User-Agent"
    ∷ codes "Variant-Vary"
    ∷ codes "Vary"
    ∷ codes "VBR-Info"
    ∷ codes "Version"
    ∷ codes "Via"
    ∷ codes "Want-Digest"
    ∷ codes "Warning"
    ∷ codes "WWW-Authenticate"
    ∷ codes "X-Archived-At"
    ∷ codes "X-Device-Accept"
    ∷ codes "X-Device-Accept-Charset"
    ∷ codes "X-Device-Accept-Encoding"
    ∷ codes "X-Device-Accept-Language"
    ∷ codes "X-Device-User-Agent"
    ∷ codes "X-Frame-Options"
    ∷ codes "X-Mittente"
    ∷ codes "X-PGP-Sig"
    ∷ codes "X-Ricevuta"
    ∷ codes "X-Riferimento-Message-ID"
    ∷ codes "X-TipoRicevuta"
    ∷ codes "X-Trasporto"
    ∷ codes "X-VerificaSicurezza"
    ∷ codes "X400-Content-Identifier"
    ∷ codes "X400-Content-Return"
    ∷ codes "X400-Content-Type"
    ∷ codes "X400-MTS-Identifier"
    ∷ codes "X400-Originator"
    ∷ codes "X400-Received"
    ∷ codes "X400-Recipients"
    ∷ codes "X400-Trace"
    ∷ codes "Xref"
    ∷ []

unfoldable pub by_name : List Bytes
by_name = names_a ++ (names_b ++ names_c)
