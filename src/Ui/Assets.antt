-- ===== src/Ui/Assets.antt =====
-- The style sheets and scripts of the pages: workers/src/ui/base.ts and workers/src/ui/admin/layout.ts.
use simtrader.Base.{String, [], ◌∷◌}
use simtrader.Ui.{template}

unfoldable pub css : String
unfolding template
css = template (
    "\n" ∷ ":root {\n" ∷ "  --bg: #f8fafc; --card: #fff; --border: #e2e8f0;\n"
    ∷ "  --text: #1e293b; --muted: #64748b;\n" ∷ "  --primary: #4f46e5; --primary-hover: #4338ca;\n"
    ∷ "  --danger: #dc2626; --danger-hover: #b91c1c;\n"
    ∷ "  --success: #16a34a; --warning: #d97706;\n"
    ∷ "  --radius: 8px; --shadow: 0 1px 3px rgba(0,0,0,.08);\n" ∷ "}\n"
    ∷ "*, *::before, *::after { box-sizing: border-box; margin: 0; padding: 0; }\n"
    ∷ "body { font-family: system-ui, -apple-system, sans-serif; font-size: 14px;\n"
    ∷ "       line-height: 1.6; color: var(--text); background: var(--bg); }\n"
    ∷ "a { color: var(--primary); text-decoration: none; }\n"
    ∷ "a:hover { text-decoration: underline; }\n"
    ∷ ".btn { display: inline-flex; align-items: center; gap: .4rem; padding: .45rem 1rem;\n"
    ∷ "       border-radius: var(--radius); border: none; cursor: pointer; font-size: 13px;\n"
    ∷ "       font-weight: 500; transition: background .15s; }\n"
    ∷ ".btn-primary { background: var(--primary); color: #fff; }\n"
    ∷ ".btn-primary:hover { background: var(--primary-hover); }\n"
    ∷ ".btn-danger  { background: var(--danger);  color: #fff; }\n"
    ∷ ".btn-danger:hover  { background: var(--danger-hover); }\n"
    ∷ ".btn-ghost   { background: transparent; color: var(--text); border: 1px solid var(--border); }\n"
    ∷ ".btn-ghost:hover { background: var(--border); }\n"
    ∷ ".btn-sm { padding: .3rem .7rem; font-size: 12px; }\n"
    ∷ ".card { background: var(--card); border: 1px solid var(--border);\n"
    ∷ "        border-radius: var(--radius); box-shadow: var(--shadow); padding: 1.5rem; }\n"
    ∷ ".badge { display: inline-block; padding: .15rem .5rem; border-radius: 999px;\n"
    ∷ "         font-size: 11px; font-weight: 600; }\n"
    ∷ ".badge-green  { background: #dcfce7; color: #15803d; }\n"
    ∷ ".badge-red    { background: #fee2e2; color: #b91c1c; }\n"
    ∷ ".badge-yellow { background: #fef9c3; color: #854d0e; }\n"
    ∷ ".badge-blue   { background: #dbeafe; color: #1d4ed8; }\n"
    ∷ ".badge-gray   { background: #f1f5f9; color: #475569; }\n"
    ∷ "table { width: 100%; border-collapse: collapse; }\n"
    ∷ "th { text-align: left; padding: .6rem .75rem; font-size: 11px; font-weight: 600;\n"
    ∷ "     text-transform: uppercase; letter-spacing: .05em; color: var(--muted);\n"
    ∷ "     border-bottom: 1px solid var(--border); }\n"
    ∷ "td { padding: .65rem .75rem; border-bottom: 1px solid var(--border); vertical-align: middle; }\n"
    ∷ "tr:last-child td { border-bottom: none; }\n" ∷ "tr:hover td { background: #f8fafc; }\n"
    ∷ ".form-group { margin-bottom: 1rem; }\n"
    ∷ "label { display: block; font-weight: 500; font-size: 13px; margin-bottom: .35rem; }\n"
    ∷ "input[type=email], input[type=password], input[type=text], input[type=search], select {\n"
    ∷ "  width: 100%; padding: .55rem .75rem; border: 1px solid var(--border);\n"
    ∷ "  border-radius: var(--radius); font-size: 14px; outline: none;\n"
    ∷ "  transition: border-color .15s; }\n"
    ∷ "input:focus, select:focus { border-color: var(--primary); }\n"
    ∷ ".alert { padding: .75rem 1rem; border-radius: var(--radius); margin-bottom: 1rem; font-size: 13px; }\n"
    ∷ ".alert-error { background: #fee2e2; color: #991b1b; border: 1px solid #fca5a5; }\n"
    ∷ ".page-header { display: flex; align-items: center; justify-content: space-between;\n"
    ∷ "               margin-bottom: 1.5rem; }\n"
    ∷ ".page-title { font-size: 1.25rem; font-weight: 700; }\n"
    ∷ ".pagination { display: flex; gap: .5rem; align-items: center; margin-top: 1rem; }\n"
    ∷ ".pagination a, .pagination span { padding: .35rem .7rem; border: 1px solid var(--border);\n"
    ∷ "  border-radius: var(--radius); font-size: 12px; }\n"
    ∷ ".pagination a:hover { background: var(--border); }\n"
    ∷ ".pagination .current { background: var(--primary); color: #fff; border-color: var(--primary); }\n"
    ∷ "dialog { border: none; border-radius: var(--radius); box-shadow: 0 8px 32px rgba(0,0,0,.18);\n"
    ∷ "         padding: 2rem; max-width: 440px; width: 100%; }\n"
    ∷ "dialog::backdrop { background: rgba(0,0,0,.4); }\n"
    ∷ ".modal-title { font-size: 1rem; font-weight: 700; margin-bottom: .75rem; }\n"
    ∷ ".modal-actions { display: flex; gap: .5rem; justify-content: flex-end; margin-top: 1.5rem; }\n"
    ∷ ".toast-container { position: fixed; bottom: 1.5rem; right: 1.5rem; display: flex;\n"
    ∷ "                   flex-direction: column; gap: .5rem; z-index: 100; }\n"
    ∷ ".toast { padding: .65rem 1rem; border-radius: var(--radius); font-size: 13px; font-weight: 500;\n"
    ∷ "         color: #fff; opacity: 0; transform: translateY(8px);\n"
    ∷ "         transition: opacity .25s, transform .25s; }\n"
    ∷ ".toast.show { opacity: 1; transform: translateY(0); }\n"
    ∷ ".toast-success { background: var(--success); }\n"
    ∷ ".toast-error   { background: var(--danger); }\n" ∷ [])

unfoldable pub toast_script : String
unfolding template
toast_script = template (
    "\n" ∷ "const _toastEl = document.getElementById('toast-container')\n"
    ∷ "function toast(msg, type='success') {\n" ∷ "  const el = document.createElement('div')\n"
    ∷ "  el.className = 'toast toast-' + type\n" ∷ "  el.textContent = msg\n"
    ∷ "  _toastEl.appendChild(el)\n"
    ∷ "  requestAnimationFrame(() => { el.classList.add('show') })\n" ∷ "  setTimeout(() => {\n"
    ∷ "    el.classList.remove('show')\n" ∷ "    setTimeout(() => el.remove(), 300)\n"
    ∷ "  }, 3000)\n" ∷ "}\n" ∷ "\n" ∷ "async function adminAction(url, body={}) {\n"
    ∷ "  const res = await fetch(url, {\n" ∷ "    method: 'POST',\n"
    ∷ "    headers: { 'Content-Type': 'application/json' },\n" ∷ "    body: JSON.stringify(body),\n"
    ∷ "  })\n" ∷ "  if (res.ok) return true\n" ∷ "  const j = await res.json().catch(() => ({}))\n"
    ∷ "  toast(j.error ?? 'Something went wrong', 'error')\n" ∷ "  return false\n" ∷ "}\n" ∷ [])

unfoldable pub admin_css : String
unfolding template
admin_css = template (
    "\n" ∷ "  " ∷ css ∷ "\n" ∷ "  body { display: flex; min-height: 100vh; }\n"
    ∷ "  .sidebar { width: 220px; min-height: 100vh; background: #1e293b; color: #94a3b8;\n"
    ∷ "             display: flex; flex-direction: column; flex-shrink: 0; position: fixed; top: 0; left: 0; bottom: 0; }\n"
    ∷ "  .sidebar-brand { padding: 1.25rem 1.5rem; font-size: 1rem; font-weight: 800; color: #fff;\n"
    ∷ "                   border-bottom: 1px solid #334155; display: flex; align-items: center; gap: .5rem; }\n"
    ∷ "  .sidebar-section { padding: .75rem .75rem .25rem; font-size: 10px; font-weight: 700;\n"
    ∷ "                     text-transform: uppercase; letter-spacing: .08em; color: #475569; }\n"
    ∷ "  .sidebar-link { display: flex; align-items: center; gap: .6rem; padding: .55rem .75rem;\n"
    ∷ "                  border-radius: 6px; margin: .1rem .5rem; font-size: 13px; color: #94a3b8;\n"
    ∷ "                  text-decoration: none; transition: background .15s, color .15s; }\n"
    ∷ "  .sidebar-link:hover { background: #334155; color: #e2e8f0; text-decoration: none; }\n"
    ∷ "  .sidebar-link.active { background: #4f46e5; color: #fff; }\n"
    ∷ "  .sidebar-footer { margin-top: auto; padding: 1rem; border-top: 1px solid #334155; font-size: 12px; }\n"
    ∷ "  .sidebar-footer .email { color: #e2e8f0; font-weight: 500; margin-bottom: .25rem; }\n"
    ∷ "  .sidebar-footer form button { color: #94a3b8; background: none; border: none; cursor: pointer;\n"
    ∷ "                                font-size: 12px; padding: 0; }\n"
    ∷ "  .sidebar-footer form button:hover { color: #e2e8f0; }\n"
    ∷ "  .content { margin-left: 220px; flex: 1; padding: 2rem; max-width: 1100px; }\n"
    ∷ "  .kpi-grid { display: grid; grid-template-columns: repeat(auto-fit, minmax(180px, 1fr)); gap: 1rem; margin-bottom: 1.5rem; }\n"
    ∷ "  .kpi { background: var(--card); border: 1px solid var(--border); border-radius: var(--radius);\n"
    ∷ "         padding: 1.25rem; }\n"
    ∷ "  .kpi-label { font-size: 11px; font-weight: 600; text-transform: uppercase; letter-spacing: .05em; color: var(--muted); }\n"
    ∷ "  .kpi-value { font-size: 2rem; font-weight: 800; color: var(--text); margin: .25rem 0; }\n"
    ∷ "  .kpi-sub { font-size: 12px; color: var(--muted); }\n"
    ∷ "  .kpi-warn .kpi-value { color: var(--warning); }\n"
    ∷ "  .kpi-danger .kpi-value { color: var(--danger); }\n"
    ∷ "  .filter-bar { display: flex; gap: .5rem; align-items: center; margin-bottom: 1rem; flex-wrap: wrap; }\n"
    ∷ "  .filter-bar input, .filter-bar select { width: auto; }\n" ∷ [])
