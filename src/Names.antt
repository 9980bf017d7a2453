-- ===== src/Names.antt =====
-- The constants that src/mkdata.awk generates from src/tnef-types.data, tnef-names.data,
-- mapi-types.data and mapi-names.data, as far as the program tests for them.
use tnef.Prelude.{ℕ}

abbrev pub sz_triples : ℕ
sz_triples = 0x0000

abbrev pub sz_string : ℕ
sz_string = 0x0001

abbrev pub sz_text : ℕ
sz_text = 0x0002

abbrev pub sz_date : ℕ
sz_date = 0x0003

abbrev pub sz_short : ℕ
sz_short = 0x0004

abbrev pub sz_long : ℕ
sz_long = 0x0005

abbrev pub sz_byte : ℕ
sz_byte = 0x0006

abbrev pub sz_word : ℕ
sz_word = 0x0007

abbrev pub sz_dword : ℕ
sz_dword = 0x0008

abbrev pub att_body : ℕ
att_body = 0x800c

abbrev pub att_attachdata : ℕ
att_attachdata = 0x800f

abbrev pub att_attachtitle : ℕ
att_attachtitle = 0x8010

abbrev pub att_attachmodifydate : ℕ
att_attachmodifydate = 0x8013

abbrev pub att_attachrenddata : ℕ
att_attachrenddata = 0x9002

abbrev pub att_mapiprops : ℕ
att_mapiprops = 0x9003

abbrev pub att_attachment : ℕ
att_attachment = 0x9005

abbrev pub att_oemcodepage : ℕ
att_oemcodepage = 0x9007

abbrev pub szmapi_unspecified : ℕ
szmapi_unspecified = 0x0000

abbrev pub szmapi_null : ℕ
szmapi_null = 0x0001

abbrev pub szmapi_short : ℕ
szmapi_short = 0x0002

abbrev pub szmapi_int : ℕ
szmapi_int = 0x0003

abbrev pub szmapi_float : ℕ
szmapi_float = 0x0004

abbrev pub szmapi_double : ℕ
szmapi_double = 0x0005

abbrev pub szmapi_currency : ℕ
szmapi_currency = 0x0006

abbrev pub szmapi_apptime : ℕ
szmapi_apptime = 0x0007

abbrev pub szmapi_error : ℕ
szmapi_error = 0x000a

abbrev pub szmapi_boolean : ℕ
szmapi_boolean = 0x000b

abbrev pub szmapi_object : ℕ
szmapi_object = 0x000d

abbrev pub szmapi_int8byte : ℕ
szmapi_int8byte = 0x0014

abbrev pub szmapi_string : ℕ
szmapi_string = 0x001e

abbrev pub szmapi_unicode_string : ℕ
szmapi_unicode_string = 0x001f

abbrev pub szmapi_systime : ℕ
szmapi_systime = 0x0040

abbrev pub szmapi_clsid : ℕ
szmapi_clsid = 0x0048

abbrev pub szmapi_binary : ℕ
szmapi_binary = 0x0102

abbrev pub mapi_rtf_compressed : ℕ
mapi_rtf_compressed = 0x1009

abbrev pub mapi_body_html : ℕ
mapi_body_html = 0x1013

abbrev pub mapi_attach_data_obj : ℕ
mapi_attach_data_obj = 0x3701

abbrev pub mapi_attach_long_filename : ℕ
mapi_attach_long_filename = 0x3707

abbrev pub mapi_attach_mime_tag : ℕ
mapi_attach_mime_tag = 0x370e

abbrev pub mapi_attach_content_id : ℕ
mapi_attach_content_id = 0x3712
